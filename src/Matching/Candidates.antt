-- ===== src/Matching/Candidates.antt =====
-- What a match says of the roster.
use rubric_grading_engine.Prelude.{
  ℕ, String, ◌≡◌, refl, ap, ◌∙◌, inl, inr, Bool, Option, none, some, List, [], ◌∷◌, map, arith, leb,
  if◌then◌else◌, Bool-cases, length, select, length-map,
}
use rubric_grading_engine.Parsing.Text.{is_empty}
use rubric_grading_engine.Matching.{
  Fuzz, CandidateMatch, MatchStatus, assigned, ambiguous, unassigned, Student, Upload, max,
  score_filename, score_author, score_header, best_of, auto_assign_threshold, candidates_of,
  result_of, or_empty, take_chars, match_student,
}

-- The highest of the scores of the signals that are there.
abbrev pub highest : Fuzz → Upload → String → ℕ
highest fuzz upload name =
    let author = if is_empty upload.author then 0 else score_author fuzz upload.author name in
    let header = if is_empty upload.header then 0 else score_header fuzz upload.header name in
    max (max (score_filename fuzz upload.stem name) author) header

pub best-of_highest :
    (fuzz : Fuzz) (upload : Upload) (name : String)
    → (best_of fuzz upload name).0 ≡ highest fuzz upload name
unfolding best_of
best-of_highest fuzz upload name = ground arith

-- Whether a student of the roster reaches the threshold.
abbrev pub reaches : Fuzz → Upload → Student → Bool
reaches fuzz upload (student_id, name) = leb (auto_assign_threshold fuzz) (highest fuzz upload name)

-- The upload as the matching reads it.
abbrev pub upload_of : Fuzz → String → Option String → Option String → Upload
upload_of fuzz file_name author header = record {
  stem = fuzz.stem file_name;
  author = or_empty author;
  header = take_chars 200 (or_empty header);
}

abbrev pub ids : List CandidateMatch → List ℕ
ids cs = map (λ c. c.student_id) cs

candidates-select :
    (fuzz : Fuzz) (upload : Upload) (roster : List Student)
    → ids (candidates_of fuzz upload roster) ≡ map (λ s. s.0) (select (reaches fuzz upload) roster)
unfolding candidates_of
candidates-select fuzz upload [] = refl
candidates-select fuzz upload ((student_id, name) ∷ roster) =
    let rest = candidates-select fuzz upload roster in
    let best = best-of_highest fuzz upload name in
    elim (Bool-cases (reaches fuzz upload (student_id, name))) [
      | inl above ↦ rw (best, above) (ap (λ xs. student_id ∷ xs) rest)
      | inr below ↦ rw (best, below) rest
    ]

-- The outcome that a list of ids above the threshold calls for.
abbrev pub Outcome : Type 0
Outcome = MatchStatus × Option ℕ × ℕ

abbrev pub outcome_of : List ℕ → Outcome
outcome_of [] = (unassigned, none, 0)
outcome_of (k ∷ []) = (assigned, some k, 1)
outcome_of (k ∷ j ∷ ks) = (ambiguous, none, length (k ∷ j ∷ ks))

result-outcome :
    (cs : List CandidateMatch)
    → let r = result_of cs in (r.status, r.student_id, r.match_count) ≡ outcome_of (ids cs)
unfolding result_of
result-outcome [] = refl
result-outcome (x ∷ []) = refl
result-outcome (x ∷ y ∷ cs) = rw (length-map (λ (c : CandidateMatch). c.student_id) cs) refl

match-candidates :
    (fuzz : Fuzz) (roster : List Student) (file_name : String) (author header : Option String)
    → match_student fuzz roster file_name author header
      ≡ result_of (candidates_of fuzz (upload_of fuzz file_name author header) roster)
unfolding match_student candidates_of
match-candidates fuzz [] file_name author header = refl
match-candidates fuzz (s ∷ roster) file_name author header = refl

-- A match counts the students of the roster whose highest score over the signals that are there reaches
-- the threshold: with none it leaves the upload unassigned, with one it assigns that student, and with
-- more it picks nobody.
pub match-student_outcome :
    (fuzz : Fuzz) (roster : List Student) (file_name : String) (author header : Option String)
    → let r = match_student fuzz roster file_name author header in
      let upload = upload_of fuzz file_name author header in
      (r.status, r.student_id, r.match_count)
      ≡ outcome_of (map (λ s. s.0) (select (reaches fuzz upload) roster))
match-student_outcome fuzz roster file_name author header =
    let upload = upload_of fuzz file_name author header in
    let outcome = result-outcome (candidates_of fuzz upload roster) in
    rw (match-candidates fuzz roster file_name author header)
      (outcome ∙ ap outcome_of (candidates-select fuzz upload roster))
