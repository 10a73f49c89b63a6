-- ===== src/Examples/Answers.antt =====
-- The theorems on the model's answers. The runtime reads every text as one answer, with a score
-- above the maximum.
use rubric_grading_engine.Prelude.{
  String, ◌≡◌, refl, ◌⊎◌, true, false, none, some, [], ◌∷◌, arith, ◌==◌, if◌then◌else◌, All,
}
use rubric_grading_engine.Prelude.Int.{pos}
use rubric_grading_engine.Prelude.Results.{llm_parse_error, overflow_error, ok, err}
use rubric_grading_engine.Models.{low, class_row, assignment_row, essay_row, version_row}
use rubric_grading_engine.Parsing.Text.{is_empty, strip, len}
use rubric_grading_engine.Parsing.Json.{
  obj, arr, int, str, nil, cons, Fields, end, field, Runtime, lookup, number, to_int, to_text,
  text_or_empty, is_truthy,
}
use rubric_grading_engine.Parsing.Grading.{
  CriterionInfo, ParsedCriterionScore, ParsedGradingResponse, store, store_item, collect, find_item,
  clamp_score, is_short, level_of, confidence_of, feedback_of, parsed_score, parse_criterion,
  parse_criteria, decode, parse_grading_response,
}
use rubric_grading_engine.Parsing.Answer.{
  AllSound, IsOrdered, accepted_answer, overflows, parse_total,
}
use rubric_grading_engine.LanguageModel.{Replies, chat_from, chat_with_retry, call_grading}
use rubric_grading_engine.LanguageModel.Retries.{call_grading_sound}

abbrev pub item : Fields
item = field "criterion_id" (str "30") (
    field "score" (int (pos 12)) (
      field "justification" (str "A clear and well argued thesis statement.")
        (field "confidence" (str "high") end)))

abbrev pub answer : Fields
answer =
    field "criterion_scores" (arr (cons (obj item) nil))
      (field "summary_feedback" (str " Good work ") end)

abbrev pub python : Runtime
python = record { loads = λ s. some (obj answer); repr = λ j. ""; int_of_text = λ s. none }

abbrev pub info : CriterionInfo
info = record { criterion_id = "30"; min_score = pos 0; max_score = pos 10 }

abbrev pub parsed : ParsedCriterionScore
parsed = record {
  criterion_id = "30";
  score = some (pos 10);
  justification = "A clear and well argued thesis statement.";
  confidence = low;
  ai_feedback = "";
  score_clamped = true;
  needs_review = true;
  raw_score = some (pos 12);
}

abbrev pub response : ParsedGradingResponse
response = record { criterion_scores = parsed ∷ []; summary_feedback = "Good work" }

parsing_item : parse_criterion python info (some item) ≡ ok parsed
unfolding parse_criterion clamp_score to_int lookup parsed_score text_or_empty to_text is_truthy
    is_empty is_short strip len confidence_of level_of feedback_of
parsing_item = refl

parsing : parse_grading_response python "{}" (info ∷ []) ≡ ok response
unfolding parse_grading_response decode collect store_item store find_item parse_criteria
    parse_criterion clamp_score to_int lookup parsed_score text_or_empty to_text is_truthy is_empty
    is_short strip len confidence_of level_of feedback_of
parsing = refl

ordered : All IsOrdered (info ∷ [])
ordered = (omega arith, tt)

read_score : to_int python (lookup "score" item) ≡ number (pos 12)
unfolding to_int lookup
read_score = refl

accepted_answer_example : AllSound (info ∷ []) (parsed ∷ []) × (is_empty "Good work" ≡ false)
accepted_answer_example = accepted_answer python "{}" (info ∷ []) response ordered parsing

decoding : decode python "{}" ≡ ok (answer, cons (obj item) nil)
unfolding decode lookup
decoding = refl

parse_total_example :
    (overflows python (collect python (cons (obj item) nil) []) (info ∷ []) ≡ false
      → (r : ParsedGradingResponse) × (parse_grading_response python "{}" (info ∷ []) ≡ ok r))
    × (overflows python (collect python (cons (obj item) nil) []) (info ∷ []) ≡ true
        → parse_grading_response python "{}" (info ∷ []) ≡ err overflow_error)
parse_total_example = parse_total python "{}" (info ∷ []) answer (cons (obj item) nil) decoding

-- The first attempt times out, and the second is answered.
abbrev pub replies : Replies
replies n = if n == 1 then some "{}" else none

pub calling : call_grading python 3 replies replies (info ∷ []) ≡ ok response
unfolding call_grading chat_with_retry chat_from parse_grading_response decode collect store_item
    store find_item parse_criteria parse_criterion clamp_score to_int lookup parsed_score
    text_or_empty to_text is_truthy is_empty is_short strip len confidence_of level_of feedback_of
calling = refl

call_grading_sound_example :
    AllSound (info ∷ []) (parsed ∷ [])
    × (is_empty "Good work" ≡ false)
    × ((raw : String) × (parse_grading_response python raw (info ∷ []) ≡ ok response)
        × ((chat_with_retry 3 replies ≡ ok raw)
            ⊎ ((chat_with_retry 3 replies ≡ ok raw)
                × ((refused : String) × (chat_with_retry 3 replies ≡ ok refused)
                    × (parse_grading_response python refused (info ∷ []) ≡ err llm_parse_error)))))
call_grading_sound_example =
    call_grading_sound python 3 replies replies (info ∷ []) response ordered calling
