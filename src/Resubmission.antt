-- ===== src/Resubmission.antt =====
-- backend/app/services/resubmission.py: the comparison of two graded versions of an essay. A text's set
-- of lowered words, its stored word count and the text of an id are parameters, as is what the language
-- model answers.
pub mod Deltas
pub mod Latest
use rubric_grading_engine.Prelude.{
  ℕ, ◌+◌, ◌-◌, ◌*◌, String, Bool, true, not, ◌&&◌, Option, none, some, List, [], ◌∷◌, ◌++◌, map,
  ltb, leb, ◌==◌, if◌then◌else◌, length, select, count_if,
}
use rubric_grading_engine.Prelude.Int.{ℤ, pos, ◌-ℤ◌}
use rubric_grading_engine.Prelude.Results.{not_found, Result, ok, ◌>>=◌, ◌>>◌, or_raise}
use rubric_grading_engine.Prelude.Tables.{get_where}
use rubric_grading_engine.Prelude.Texts.{has_text, str_eq}
use rubric_grading_engine.Prelude.Orders.{sort_by}
use rubric_grading_engine.Parsing.Text.{strip, is_empty}
use rubric_grading_engine.Models.{EssayVersion, CriterionScore, essay_row, version_row, grade_row}
use rubric_grading_engine.Models.Store.{Db, owner_of_essay, is_owner}

-- The lowered words of a text, in order, the word count that its row keeps, and `str` of an id.
pub record Words : Type 0 where
  pub split_lower : String → List String
  pub word_count : EssayVersion → ℕ
  pub str : ℕ → String

-- `set(words)`: each text once.
abbrev pub distinct_words : List String → List String
distinct_words [] = []
distinct_words (w ∷ ws) = let rest = distinct_words ws in if has_text w rest then rest else w ∷ rest

-- The Jaccard similarity is at least 95 per cent; two texts without words are alike.
unfoldable pub is_similar : Words → String → String → Bool
is_similar words a b =
    let words_a = distinct_words (words.split_lower a) in
    let words_b = distinct_words (words.split_lower b) in
    let common = count_if (λ w. has_text w words_b) words_a in
    let union = length words_a + length words_b - common in
    if length words_a == 0 && length words_b == 0 then true else leb (95 * union) (100 * common)

-- The word count changes by fewer than 5 words, and by less than 2 per cent of the base's.
unfoldable pub is_negligible : ℕ → ℕ → Bool
is_negligible base revised =
    let delta = if leb base revised then revised - base else base - revised in
    ltb delta 5 && (if ltb 0 base then ltb (50 * delta) base else true)

pub data LowEffortReason : Type 0 where
  few_words_changed text_similar : LowEffortReason

unfoldable pub detect_low_effort : Words → EssayVersion → EssayVersion → List LowEffortReason
detect_low_effort words base revised =
    (if is_negligible (words.word_count base) (words.word_count revised)
      then few_words_changed ∷ []
      else [])
    ++ (if is_similar words base.content revised.content then text_similar ∷ [] else [])

-- The criterion and the trimmed feedback.
abbrev pub FeedbackItem : Type 0
FeedbackItem = String × String

abbrev pub feedback_text : Option String → String
feedback_text none = ""
feedback_text (some s) = s

unfoldable pub build_feedback_items : Words → List CriterionScore → List FeedbackItem
build_feedback_items words [] = []
build_feedback_items words (x ∷ xs) =
    let feedback = strip (feedback_text x.ai_feedback) in
    let rest = build_feedback_items words xs in
    if is_empty feedback then rest else (words.str x.rubric_criterion_id, feedback) ∷ rest

pub record CriterionDelta : Type 0 where
  pub criterion_id : ℕ
  pub base_score : ℤ
  pub revised_score : ℤ
  pub delta : ℤ

-- `revised_by_criterion.get(k)`: of several rows of a criterion, the last.
abbrev pub score_by_criterion : ℕ → List CriterionScore → Option CriterionScore
score_by_criterion k [] = none
score_by_criterion k (x ∷ xs) = elim (score_by_criterion k xs) [
  | some later ↦ some later
  | none ↦ if x.rubric_criterion_id == k then some x else none
]

-- The revised score, 0 without a row.
abbrev pub final_or_zero : Option CriterionScore → ℤ
final_or_zero none = pos 0
final_or_zero (some x) = x.final_score

unfoldable pub criterion_delta : List CriterionScore → CriterionScore → CriterionDelta
criterion_delta revised base =
    let revised_score = final_or_zero (score_by_criterion base.rubric_criterion_id revised) in
    record {
      criterion_id = base.rubric_criterion_id;
      base_score = base.final_score;
      revised_score = revised_score;
      delta = revised_score -ℤ base.final_score;
    }

-- One entry of the model's answer: the criterion, whether it was addressed, and a detail.
abbrev pub Assessment : Type 0
Assessment = String × Bool × String

pub record AddressedFeedback : Type 0 where
  pub criterion_id : String
  pub feedback_given : String
  pub addressed : Bool
  pub detail : String

-- `feedback_by_criterion_id.get(k, "")`: of several items, the last.
abbrev pub given_feedback : String → List FeedbackItem → Option String
given_feedback k [] = none
given_feedback k ((j, feedback) ∷ items) = elim (given_feedback k items) [
  | some later ↦ some later
  | none ↦ if str_eq j k then some feedback else none
]

-- Without items the model is not asked; a call that raises leaves nothing.
unfoldable pub address_feedback :
    List FeedbackItem → Option (List Assessment) → Option (List AddressedFeedback)
address_feedback [] answer = none
address_feedback items none = none
address_feedback (item ∷ items) (some assessments) = some (
    map
      (λ (k, addressed, detail). record {
        criterion_id = k;
        feedback_given = feedback_text (given_feedback k (item ∷ items));
        addressed = addressed;
        detail = detail;
      })
      assessments)

pub record RevisionComparison : Type 0 where
  pub id : ℕ
  pub essay_id : ℕ
  pub base_version_id : ℕ
  pub revised_version_id : ℕ
  pub base_grade_id : ℕ
  pub revised_grade_id : ℕ
  pub total_score_delta : ℤ
  pub criterion_deltas : List CriterionDelta
  pub is_low_effort : Bool
  pub low_effort_reasons : List LowEffortReason
  pub feedback_addressed : Option (List AddressedFeedback)
  pub created_at : ℕ

-- The ids that a comparison is asked for.
pub record Pair : Type 0 where
  pub essay_id : ℕ
  pub base_version_id : ℕ
  pub revised_version_id : ℕ
  pub base_grade_id : ℕ
  pub revised_grade_id : ℕ

abbrev pub scores_of_grade : Db → ℕ → List CriterionScore
scores_of_grade db g = select (λ (x : CriterionScore). x.grade_id == g) db.criterion_scores

-- The row that is built from what is loaded, with its id and its time.
unfoldable pub build_comparison :
    Words → Option (List Assessment) → Db → ℕ → ℕ → Pair → Result RevisionComparison
build_comparison words answer db id now p = do
  base ←
      or_raise (get_where p.base_version_id (λ v. v.essay_id == p.essay_id) db.versions) not_found
  revised ←
      or_raise (get_where p.revised_version_id (λ v. v.essay_id == p.essay_id) db.versions)
        not_found
  base_grade ←
      or_raise (get_where p.base_grade_id (λ g. g.essay_version_id == p.base_version_id) db.grades)
        not_found
  revised_grade ←
      or_raise
        (get_where p.revised_grade_id (λ g. g.essay_version_id == p.revised_version_id) db.grades)
        not_found
  let base_scores = scores_of_grade db p.base_grade_id
  let revised_scores = scores_of_grade db p.revised_grade_id
  let reasons = detect_low_effort words base revised
  ok (record {
    id = id;
    essay_id = p.essay_id;
    base_version_id = p.base_version_id;
    revised_version_id = p.revised_version_id;
    base_grade_id = p.base_grade_id;
    revised_grade_id = p.revised_grade_id;
    total_score_delta = revised_grade.total_score -ℤ base_grade.total_score;
    criterion_deltas = map (criterion_delta revised_scores) base_scores;
    is_low_effort = not (length reasons == 0);
    low_effort_reasons = reasons;
    feedback_addressed = address_feedback (build_feedback_items words base_scores) answer;
    created_at = now;
  })

-- The table of comparisons grows by the row.
unfoldable pub compute_revision_comparison :
    Words
    → Option (List Assessment)
    → Db
    → List RevisionComparison
    → ℕ
    → ℕ
    → Pair
    → Result (RevisionComparison × List RevisionComparison)
compute_revision_comparison words answer db comparisons id now p = do
  comparison ← build_comparison words answer db id now p
  ok (comparison, comparison ∷ comparisons)

-- The newest; of several at one time, the one that stands first.
abbrev pub newest_of : List RevisionComparison → Option RevisionComparison
newest_of [] = none
newest_of (x ∷ xs) = elim (newest_of xs) [
  | none ↦ some x
  | some y ↦ if leb y.created_at x.created_at then some x else some y
]

-- The newest of the essay's comparisons, for the teacher of its class.
unfoldable pub get_revision_comparison :
    Db → List RevisionComparison → ℕ → ℕ → Result RevisionComparison
get_revision_comparison db comparisons e t = do
  essay ← or_raise (get_where e (λ x. is_owner (owner_of_essay db x) t) db.essays) not_found
  or_raise (newest_of (select (λ (x : RevisionComparison). x.essay_id == e) comparisons)) not_found

unfoldable pub list_essay_versions : Db → ℕ → ℕ → Result (List EssayVersion)
list_essay_versions db e t = do
  essay ← or_raise (get_where e (λ x. is_owner (owner_of_essay db x) t) db.essays) not_found
  ok (
      sort_by (λ (x y : EssayVersion). ltb x.version_number y.version_number)
        (select (λ (v : EssayVersion). v.essay_id == e) db.versions))
