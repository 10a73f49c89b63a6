-- ===== src/LanguageModel/Retries.antt =====
-- How many attempts a call makes, and what a grading call ends in.
use rubric_grading_engine.Prelude.{
  ℕ, zero, suc, ◌+◌, ◌-◌, ◌≤◌, ◌<◌, String, ◌≡◌, refl, ◌⊎◌, inl, inr, false, none, some, List,
  arith, Option-cases, All,
}
use rubric_grading_engine.Prelude.Results.{
  not_found, forbidden, conflict, grade_locked, grading_in_progress, not_gradeable, rubric_in_use,
  rubric_weight_invalid, invalid_transition, regrade_window_closed, regrade_limit_reached,
  llm_error, llm_parse_error, overflow_error, value_error, outage, csv_error, rate_limited,
  unauthorized, refresh_token_invalid, validation_error, Result, ok, err, >>=-eq-ok,
}
use rubric_grading_engine.Parsing.Json.{Runtime}
use rubric_grading_engine.Parsing.Grading.{
  CriterionInfo, ParsedGradingResponse, parse_grading_response,
}
use rubric_grading_engine.Parsing.Answer.{AllSound, IsOrdered, accepted_answer}
use rubric_grading_engine.Parsing.Text.{is_empty}
use rubric_grading_engine.LanguageModel.{
  Replies, chat_from, chat_with_retry, on_parse_error, call_grading,
}

-- The attempts from `a` up to `a + n` all failed.
abbrev pub NoneBefore : Replies → ℕ → ℕ → Type 0
NoneBefore replies a n = (j : ℕ) → a ≤ j → j < a + n → replies j ≡ none

-- The first attempt from `a` that is answered is one of the next `n`.
pub record Answered (replies : Replies) (a n : ℕ) (r : Result String) : Type 0 where
  pub index : ℕ
  pub text : String
  pub bound : (a ≤ index) × (index < a + n)
  pub answered : replies index ≡ some text
  pub first : NoneBefore replies a (index - a)
  pub result : r ≡ ok text

chat_from-cases :
    (n a : ℕ) (replies : Replies)
    → Answered replies a n (chat_from n a replies)
      ⊎ (NoneBefore replies a n × (chat_from n a replies ≡ err llm_error))
unfolding chat_from
chat_from-cases zero a replies = inr (λ j p q. absurd (omega arith), refl)
chat_from-cases (suc n) a replies = elim (Option-cases (replies a)) [
  | inr (text, is) ↦ inl (record {
    index = a;
    text = text;
    bound = (omega arith, omega arith);
    answered = is;
    first = λ j p q. absurd (omega arith);
    result = rw (is, chat_from) refl;
  })
  | inl failed ↦ elim (chat_from-cases n (a + 1) replies) [
    | inl later ↦ inl (record {
      index = later.index;
      text = later.text;
      bound = (omega (arith, later.bound), omega (arith, later.bound));
      answered = later.answered;
      first = λ j p q. ground (arith, later.first j, later.bound);
      result = rw (failed, chat_from) later.result;
    })
    | inr (none_later, is) ↦ inr (λ j p q. ground (arith, none_later j), rw (failed, chat_from) is)
  ]
]

-- A call returns the text of the first attempt that is answered, if that is one of the first
-- `max_retries + 1`, and raises an LLMError when each of these fails.
pub chat_with_retry-cases :
    (max_retries : ℕ) (replies : Replies)
    → Answered replies 0 (max_retries + 1) (chat_with_retry max_retries replies)
      ⊎ (NoneBefore replies 0 (max_retries + 1)
          × (chat_with_retry max_retries replies ≡ err llm_error))
unfolding chat_with_retry
chat_with_retry-cases max_retries replies = chat_from-cases (max_retries + 1) 0 replies

on_parse_error-eq-ok :
    {A : Type 0} (first again : Result A) (r : A)
    → on_parse_error first again ≡ ok r
    → (first ≡ ok r) ⊎ ((first ≡ err llm_parse_error) × (again ≡ ok r))
on_parse_error-eq-ok (ok a) again r h = inl h
on_parse_error-eq-ok (err llm_parse_error) again r h = inr (refl, h)
on_parse_error-eq-ok (err not_found) again r h = inl h
on_parse_error-eq-ok (err forbidden) again r h = inl h
on_parse_error-eq-ok (err conflict) again r h = inl h
on_parse_error-eq-ok (err grade_locked) again r h = inl h
on_parse_error-eq-ok (err grading_in_progress) again r h = inl h
on_parse_error-eq-ok (err not_gradeable) again r h = inl h
on_parse_error-eq-ok (err rubric_in_use) again r h = inl h
on_parse_error-eq-ok (err rubric_weight_invalid) again r h = inl h
on_parse_error-eq-ok (err invalid_transition) again r h = inl h
on_parse_error-eq-ok (err regrade_window_closed) again r h = inl h
on_parse_error-eq-ok (err regrade_limit_reached) again r h = inl h
on_parse_error-eq-ok (err llm_error) again r h = inl h
on_parse_error-eq-ok (err overflow_error) again r h = inl h
on_parse_error-eq-ok (err value_error) again r h = inl h
on_parse_error-eq-ok (err outage) again r h = inl h
on_parse_error-eq-ok (err csv_error) again r h = inl h
on_parse_error-eq-ok (err rate_limited) again r h = inl h
on_parse_error-eq-ok (err unauthorized) again r h = inl h
on_parse_error-eq-ok (err refresh_token_invalid) again r h = inl h
on_parse_error-eq-ok (err (validation_error f)) again r h = inl h

module _ (py : Runtime) (max_retries : ℕ) (first corrective : Replies)
    (criteria : List CriterionInfo) where
  call_grading-cases :
      (r : ParsedGradingResponse)
      → call_grading py max_retries first corrective criteria ≡ ok r
      → (raw : String) × (parse_grading_response py raw criteria ≡ ok r)
        × ((chat_with_retry max_retries first ≡ ok raw)
            ⊎ ((chat_with_retry max_retries corrective ≡ ok raw)
                × ((refused : String) × (chat_with_retry max_retries first ≡ ok refused)
                    × (parse_grading_response py refused criteria ≡ err llm_parse_error))))
  unfolding call_grading
  call_grading-cases r h =
      let (raw, called, rest) = >>=-eq-ok (chat_with_retry max_retries first) _ h in
      elim (on_parse_error-eq-ok (parse_grading_response py raw criteria) _ r rest) [
        | inl parsed ↦ (raw, parsed, inl called)
        | inr (refused, again) ↦
            let (raw', called', parsed) =
              >>=-eq-ok (chat_with_retry max_retries corrective) _ again in
            (raw', parsed, inr (called', (raw, called, refused)))
      ]

  -- A grading call that succeeds returns what the parser makes of the first conversation's answer
  -- or, when the parser refused that one, of the corrective conversation's. Either way there is one
  -- sound entry for each criterion, in order, and a summary, if the criteria's bounds are in order.
  pub call_grading_sound :
      (r : ParsedGradingResponse)
      → All IsOrdered criteria
      → call_grading py max_retries first corrective criteria ≡ ok r
      → AllSound criteria r.criterion_scores
        × (is_empty r.summary_feedback ≡ false)
        × ((raw : String) × (parse_grading_response py raw criteria ≡ ok r)
            × ((chat_with_retry max_retries first ≡ ok raw)
                ⊎ ((chat_with_retry max_retries corrective ≡ ok raw)
                    × ((refused : String) × (chat_with_retry max_retries first ≡ ok refused)
                        × (parse_grading_response py refused criteria ≡ err llm_parse_error)))))
  call_grading_sound r ordered h =
      let (raw, parsed, source) = call_grading-cases r h in
      let (sound, summary) = accepted_answer py raw criteria r ordered parsed in
      (sound, summary, (raw, parsed, source))
