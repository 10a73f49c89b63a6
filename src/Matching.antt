-- ===== src/Matching.antt =====
-- backend/app/services/student_matching.py: which student of a roster an upload belongs to. Scores are
-- fuzz's percentages in any unit, `unit` of which are one per cent; the source divides by 100 and compares.
pub mod Candidates
use Prim.Native.String
use Prim.Native.Char.{code}
use rubric_grading_engine.Prelude.{
  ◌||◌, ℕ, zero, suc, ◌*◌, String, Bool, true, false, Option, none, some, List, [], ◌∷◌, ◌++◌, ltb,
  leb, ◌==◌, if◌then◌else◌, length,
}
use rubric_grading_engine.Parsing.Text.{is_space, strip, is_empty}

-- rapidfuzz, and what the source takes of `str` and `os.path`.
pub record Fuzz : Type 0 where
  pub unit : ℕ
  pub ratio : String → String → ℕ
  pub token_sort_ratio : String → String → ℕ
  pub partial_ratio : String → String → ℕ
  pub lower : String → String
  pub stem : String → String

pub data Signal : Type 0 where
  filename docx_author header_text : Signal

pub record CandidateMatch : Type 0 where
  pub student_id : ℕ
  pub confidence : ℕ
  pub signal : Signal

pub data MatchStatus : Type 0 where
  assigned ambiguous unassigned : MatchStatus

pub record AutoAssignResult : Type 0 where
  pub status : MatchStatus
  pub student_id : Option ℕ
  pub match_count : ℕ
  pub candidates : List CandidateMatch

-- A student of the roster: the id and the full name.
abbrev pub Student : Type 0
Student = ℕ × String

-- `re.sub("[…]+", " ", s)`: a space for each run of characters of the class. The first argument says
-- whether the character before is in a run.
abbrev collapse_from : (ℕ → Bool) → Bool → String → String
collapse_from p inside String.[] = String.[]
collapse_from p inside (String.◌∷◌ c s) =
    let run = collapse_from p true s in
    let out = collapse_from p false s in
    if p (code c) then (if inside then run else String.◌++◌ " " run) else String.◌∷◌ c out

unfoldable pub collapse : (ℕ → Bool) → String → String
collapse p s = collapse_from p false s

-- The underscore, the hyphen, the comma, the dot and the bar.
abbrev pub is_separator : ℕ → Bool
is_separator c = c == 95 || c == 45 || c == 44 || c == 46 || c == 124

unfoldable pub normalize_name : Fuzz → String → String
normalize_name fuzz text = strip (collapse is_space (collapse is_separator (fuzz.lower text)))

abbrev pub max : ℕ → ℕ → ℕ
max a b = if ltb a b then b else a

-- The better of `ratio` and `token_sort_ratio` of two names, 0 when one has nothing left.
unfoldable pub score_name : Fuzz → String → String → ℕ
score_name fuzz text student_name =
    let q = normalize_name fuzz text in
    let n = normalize_name fuzz student_name in
    if is_empty q || is_empty n then 0 else max (fuzz.ratio q n) (fuzz.token_sort_ratio q n)

unfoldable pub score_filename : Fuzz → String → String → ℕ
score_filename fuzz stem student_name = score_name fuzz stem student_name

unfoldable pub score_author : Fuzz → String → String → ℕ
score_author fuzz author student_name = score_name fuzz author student_name

unfoldable pub score_header : Fuzz → String → String → ℕ
score_header fuzz header student_name =
    let n = normalize_name fuzz student_name in
    let h = normalize_name fuzz header in
    if is_empty h || is_empty n then 0 else fuzz.partial_ratio n h

-- The best score so far and its signal.
abbrev pub Best : Type 0
Best = ℕ × Signal

-- `if score > best_confidence`
abbrev pub improve : Best → ℕ → Signal → Best
improve (confidence, best) score signal =
    if ltb confidence score then (score, signal) else (confidence, best)

-- A signal that is there, which an empty text is not.
abbrev pub improve_if : Best → String → ℕ → Signal → Best
improve_if best text score signal = if is_empty text then best else improve best score signal

-- What the upload offers: the stem of its name, its author (empty when it has none) and its header.
pub record Upload : Type 0 where
  pub stem : String
  pub author : String
  pub header : String

unfoldable pub best_of : Fuzz → Upload → String → Best
best_of fuzz upload name =
    let first = improve (0, filename) (score_filename fuzz upload.stem name) filename in
    let second =
      improve_if first upload.author (score_author fuzz upload.author name) docx_author in
    improve_if second upload.header (score_header fuzz upload.header name) header_text

-- 85 per cent.
abbrev pub auto_assign_threshold : Fuzz → ℕ
auto_assign_threshold fuzz = 85 * fuzz.unit

unfoldable pub candidates_of : Fuzz → Upload → List Student → List CandidateMatch
candidates_of fuzz upload [] = []
candidates_of fuzz upload ((student_id, name) ∷ roster) =
    let (confidence, signal) = best_of fuzz upload name in
    let rest = candidates_of fuzz upload roster in
    if leb (auto_assign_threshold fuzz) confidence
    then record { student_id = student_id; confidence = confidence; signal = signal } ∷ rest
    else rest

unfoldable pub result_of : List CandidateMatch → AutoAssignResult
result_of [] = record { status = unassigned; student_id = none; match_count = 0; candidates = [] }
result_of (x ∷ []) = record {
  status = assigned;
  student_id = some x.student_id;
  match_count = 1;
  candidates = x ∷ [];
}
result_of (x ∷ y ∷ xs) = record {
  status = ambiguous;
  student_id = none;
  match_count = length (x ∷ y ∷ xs);
  candidates = x ∷ y ∷ xs;
}

-- `header_text[:HEADER_CHAR_LIMIT]`
abbrev pub take_chars : ℕ → String → String
take_chars zero s = String.[]
take_chars (suc n) String.[] = String.[]
take_chars (suc n) (String.◌∷◌ c s) = String.◌∷◌ c (take_chars n s)

abbrev pub or_empty : Option String → String
or_empty none = ""
or_empty (some s) = s

unfoldable pub match_student :
    Fuzz → List Student → String → Option String → Option String → AutoAssignResult
match_student fuzz [] file_name author header = result_of []
match_student fuzz (student ∷ roster) file_name author header =
    let upload : Upload = record {
      stem = fuzz.stem file_name;
      author = or_empty author;
      header = take_chars 200 (or_empty header);
    } in
    result_of (candidates_of fuzz upload (student ∷ roster))
