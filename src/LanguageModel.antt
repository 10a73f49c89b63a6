-- ===== src/LanguageModel.antt =====
-- backend/app/llm/client.py: the grading call, with its retries. What the API answers to each
-- attempt is an argument: a text, or nothing for a timeout or an API error. Prompts, waiting times
-- and the fake mode for tests are left out.
pub mod Retries
use rubric_grading_engine.Prelude.{ℕ, zero, suc, ◌+◌, String, Option, none, some, List}
use rubric_grading_engine.Prelude.Results.{llm_error, llm_parse_error, Result, ok, err, ◌>>=◌, ◌>>◌}
use rubric_grading_engine.Parsing.Json.{Runtime}
use rubric_grading_engine.Parsing.Grading.{
  CriterionInfo, ParsedGradingResponse, parse_grading_response,
}

-- The answers to the attempts of one call, by their number.
abbrev pub Replies : Type 0
Replies = ℕ → Option String

-- The rounds of the loop that are left, and the number of the attempt.
unfoldable pub chat_from : ℕ → ℕ → Replies → Result String
chat_from zero attempt replies = err llm_error
chat_from (suc rounds) attempt replies =
    let rest = chat_from rounds (attempt + 1) replies in
    elim (replies attempt) [ some text ↦ ok text | none ↦ rest ]

-- `_chat_with_retry`: one attempt and `max_retries` more.
unfoldable pub chat_with_retry : ℕ → Replies → Result String
unfolding chat_from
chat_with_retry max_retries = chat_from (max_retries + 1) 0

-- Only an answer that cannot be parsed is asked for again, with a corrective prompt.
abbrev pub on_parse_error {ℓ} : {A : Type ℓ} → Result A → Result A → Result A
on_parse_error (err llm_parse_error) again = again
on_parse_error r again = r

unfoldable pub call_grading :
    Runtime → ℕ → Replies → Replies → List CriterionInfo → Result ParsedGradingResponse
unfolding chat_with_retry
call_grading py max_retries first corrective criteria = do
  raw ← chat_with_retry max_retries first
  let again = do
    retry_raw ← chat_with_retry max_retries corrective
    parse_grading_response py retry_raw criteria
  on_parse_error (parse_grading_response py raw criteria) again
