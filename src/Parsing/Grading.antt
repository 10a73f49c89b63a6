-- ===== src/Parsing/Grading.antt =====
-- `parse_grading_response`: one validated score for each criterion of the rubric snapshot. The
-- warnings that it logs are left out. The runtime `py` is a parameter (Parsing/Json).
use text.Mathlib.Text.{◌==◌ as str_eq}
use rubric_grading_engine.Prelude.{
  ℕ, String, Bool, true, false, ◌||◌, Option, none, some, List, ◌∷◌, ltb, if◌then◌else◌, [],
}
use rubric_grading_engine.Prelude.Int.{ℤ, ltb_ℤ}
use rubric_grading_engine.Prelude.Results.{llm_parse_error, overflow_error, Result, ok, err, ◌>>=◌}
use rubric_grading_engine.Models.{ConfidenceLevel, high, medium, low}
use rubric_grading_engine.Parsing.Text.{len, strip, is_empty}
use rubric_grading_engine.Parsing.Json.{
  Json, arr, obj, Items, nil, cons, Fields, Runtime, lookup, Conversion, number, refused, overflow,
  to_int, to_text, text_or_empty,
}

abbrev pub min_justification_length : ℕ
min_justification_length = 20

abbrev pub fallback_justification : String
fallback_justification = "No justification provided."

abbrev pub fallback_summary : String
fallback_summary = "No summary feedback provided."

abbrev pub fallback_feedback : String
fallback_feedback = "No feedback note provided."

pub record CriterionInfo : Type 0 where
  pub criterion_id : String
  pub min_score : ℤ
  pub max_score : ℤ

pub record ParsedCriterionScore : Type 0 where
  pub criterion_id : String
  pub score : Option ℤ
  pub justification : String
  pub confidence : ConfidenceLevel
  pub ai_feedback : String
  pub score_clamped : Bool
  pub needs_review : Bool
  pub raw_score : Option ℤ

pub record ParsedGradingResponse : Type 0 where
  pub criterion_scores : List ParsedCriterionScore
  pub summary_feedback : String

-- The loop over `data["criterion_scores"]`: later entries overwrite earlier ones of the same id.
abbrev pub Returned : Type 0
Returned = List (String × Fields)

unfoldable pub store : String → Fields → Returned → Returned
store k v [] = (k, v) ∷ []
store k v ((j, w) ∷ rest) =
    let later = store k v rest in if str_eq j k then (k, v) ∷ rest else (j, w) ∷ later

unfoldable pub store_item : Runtime → Json → Returned → Returned
unfolding store lookup to_text
store_item py (obj item) returned = elim (lookup "criterion_id" item) [
  | none ↦ returned
  | some cid ↦ store (to_text py cid) item returned
]
store_item py v returned = returned

unfoldable pub collect : Runtime → Items → Returned → Returned
unfolding store_item
collect py nil returned = returned
collect py (cons v rest) returned = collect py rest (store_item py v returned)

unfoldable pub find_item : String → Returned → Option Fields
find_item k [] = none
find_item k ((j, v) ∷ rest) = let later = find_item k rest in if str_eq j k then some v else later

-- The score before and after clamping, and whether it was clamped.
pub record Clamped : Type 0 where
  pub score : ℤ
  pub clamped : Bool
  pub raw : Option ℤ

-- `if score < min_score: … elif score > max_score: …`
abbrev pub bound : CriterionInfo → ℤ → ℤ
bound info n =
    if ltb_ℤ n info.min_score
    then info.min_score
    else if ltb_ℤ info.max_score n
    then info.max_score
    else n

abbrev pub is_outside : CriterionInfo → ℤ → Bool
is_outside info n = ltb_ℤ n info.min_score || ltb_ℤ info.max_score n

-- A value that is no number counts as the minimum, and as clamped.
unfoldable pub clamp_score : CriterionInfo → Conversion → Result Clamped
clamp_score info overflow = err overflow_error
clamp_score info refused =
    ok (record { score = bound info info.min_score; clamped = true; raw = none })
clamp_score info (number n) =
    ok (record { score = bound info n; clamped = is_outside info n; raw = some n })

unfoldable pub is_short : String → Bool
unfolding strip len
is_short text = ltb (len (strip text)) min_justification_length

-- A text that is no valid level is low.
unfoldable pub level_of : String → ConfidenceLevel
level_of text = if str_eq text "high" then high else if str_eq text "medium" then medium else low

unfoldable pub confidence_of : Runtime → Option Json → ConfidenceLevel
unfolding level_of to_text
confidence_of py none = low
confidence_of py (some v) = level_of (to_text py v)

abbrev pub or_fallback : String → String → String
or_fallback fallback text = if is_empty text then fallback else text

-- An answer without the key is one of prompt version 1: it has no note.
unfoldable pub feedback_of : Runtime → Option Json → String
unfolding text_or_empty strip is_empty
feedback_of py none = ""
feedback_of py (some v) = or_fallback fallback_feedback (strip (text_or_empty py (some v)))

unfoldable pub missing_score : CriterionInfo → ParsedCriterionScore
missing_score info = record {
  criterion_id = info.criterion_id;
  score = none;
  justification = fallback_justification;
  confidence = low;
  ai_feedback = "";
  score_clamped = false;
  needs_review = true;
  raw_score = none;
}

unfoldable pub parsed_score : Runtime → CriterionInfo → Fields → Clamped → ParsedCriterionScore
unfolding text_or_empty confidence_of feedback_of lookup
parsed_score py info item c =
    let text = text_or_empty py (lookup "justification" item) in
    record {
      criterion_id = info.criterion_id;
      score = some c.score;
      justification = if is_short text then fallback_justification else text;
      confidence = if c.clamped then low else confidence_of py (lookup "confidence" item);
      ai_feedback = feedback_of py (lookup "feedback" item);
      score_clamped = c.clamped;
      needs_review = c.clamped || is_short text;
      raw_score = c.raw;
    }

-- One turn of the loop over the criteria.
unfoldable pub parse_criterion :
    Runtime → CriterionInfo → Option Fields → Result ParsedCriterionScore
unfolding to_int lookup
parse_criterion py info none = ok (missing_score info)
parse_criterion py info (some item) = do
  c ← clamp_score info (to_int py (lookup "score" item))
  ok (parsed_score py info item c)

unfoldable pub parse_criteria :
    Runtime → Returned → List CriterionInfo → Result (List ParsedCriterionScore)
unfolding find_item
parse_criteria py returned [] = ok []
parse_criteria py returned (info ∷ criteria) = do
  score ← parse_criterion py info (find_item info.criterion_id returned)
  scores ← parse_criteria py returned criteria
  ok (score ∷ scores)

-- The checks on the structure: an object with an array under `criterion_scores`.
unfoldable pub decode : Runtime → String → Result (Fields × Items)
unfolding lookup
decode py raw = elim (py.loads raw) [
  | some (obj answer) ↦ elim (lookup "criterion_scores" answer) [
    | some (arr items) ↦ ok (answer, items)
    | _ ↦ err llm_parse_error
  ]
  | _ ↦ err llm_parse_error
]

unfoldable pub parse_grading_response :
    Runtime → String → List CriterionInfo → Result ParsedGradingResponse
unfolding collect text_or_empty strip lookup is_empty
parse_grading_response py raw criteria = do
  (answer, items) ← decode py raw
  scores ← parse_criteria py (collect py items []) criteria
  let summary = strip (text_or_empty py (lookup "summary_feedback" answer))
  ok (record { criterion_scores = scores; summary_feedback = or_fallback fallback_summary summary })
