-- ===== src/Parsing/Answer.antt =====
-- The whole answer: one sound entry for each criterion, in the rubric's order, or an exception.
use mathlib.Core.Path.{subst}
use rubric_grading_engine.Prelude.{
  String, ◌≡◌, refl, inl, inr, Bool, true, false, Option, none, some, List, ◌∷◌, arith, Bool-cases,
  any, All, [],
}
use rubric_grading_engine.Prelude.Int.{◌≤ℤ◌}
use rubric_grading_engine.Prelude.Results.{overflow_error, ok, err, >>=-eq-ok}
use rubric_grading_engine.Parsing.Text.{strip, is_empty}
use rubric_grading_engine.Parsing.Json.{
  Items, Fields, Runtime, lookup, Conversion, number, refused, overflow, to_int, text_or_empty,
}
use rubric_grading_engine.Parsing.Grading.{
  CriterionInfo, ParsedCriterionScore, ParsedGradingResponse, Returned, find_item, collect, Clamped,
  clamp_score, parse_criterion, parse_criteria, decode, parse_grading_response, or_fallback,
  fallback_summary, parsed_score,
}
use rubric_grading_engine.Parsing.Clamping.{IsSound, parse_criterion-IsSound}

-- One sound entry for each criterion, in order.
abbrev pub AllSound : List CriterionInfo → List ParsedCriterionScore → Type 0
AllSound [] [] = Unit
AllSound (info ∷ criteria) (p ∷ scores) = IsSound info p × AllSound criteria scores
AllSound _ _ = ⊥

abbrev pub IsOrdered : CriterionInfo → Type 0
IsOrdered info = info.min_score ≤ℤ info.max_score

parse_criteria-AllSound :
    (py : Runtime) (returned : Returned) (criteria : List CriterionInfo)
    (scores : List ParsedCriterionScore)
    → All IsOrdered criteria
    → parse_criteria py returned criteria ≡ ok scores
    → AllSound criteria scores
unfolding parse_criteria
parse_criteria-AllSound py returned [] [] ordered h = tt
parse_criteria-AllSound py returned [] (p ∷ scores) ordered h = cc
parse_criteria-AllSound py returned (info ∷ criteria) scores ordered h =
    let (p, parsed, rest) =
      >>=-eq-ok (parse_criterion py info (find_item info.criterion_id returned)) _ h in
    let (ps, parsed_all, made) = >>=-eq-ok (parse_criteria py returned criteria) _ rest in
    let is : p ∷ ps ≡ scores = cc in
    subst (AllSound (info ∷ criteria)) is (
      parse_criterion-IsSound py info (find_item info.criterion_id returned) p ordered.0 parsed,
      parse_criteria-AllSound py returned criteria ps ordered.1 parsed_all,
    )

or_fallback_nonempty : (text : String) → is_empty (or_fallback fallback_summary text) ≡ false
unfolding is_empty
or_fallback_nonempty text = elim (Bool-cases (is_empty text)) [
  | inl blank ↦ rw (blank, or_fallback) refl
  | inr full ↦ rw (full, or_fallback) full
]

-- For criteria each of whose minimum is at most its maximum: an answer that is accepted has exactly one
-- sound entry for each of them, in their order, and a summary that is not empty, whatever the model
-- wrote.
pub accepted_answer :
    (py : Runtime) (raw : String) (criteria : List CriterionInfo) (r : ParsedGradingResponse)
    → All IsOrdered criteria
    → parse_grading_response py raw criteria ≡ ok r
    → AllSound criteria r.criterion_scores × (is_empty r.summary_feedback ≡ false)
unfolding parse_grading_response
accepted_answer py raw criteria r ordered h =
    let ((answer, items), decoded, rest) = >>=-eq-ok (decode py raw) _ h in
    let (scores, parsed, made) =
      >>=-eq-ok (parse_criteria py (collect py items []) criteria) _ rest in
    let listed : r.criterion_scores ≡ scores = ground arith in
    let summary = strip (text_or_empty py (lookup "summary_feedback" answer)) in
    let summed : r.summary_feedback ≡ or_fallback fallback_summary summary = ground arith in
    (
      rw listed (parse_criteria-AllSound py (collect py items []) criteria scores ordered parsed),
      rw summed (or_fallback_nonempty summary),
    )

-- The entry that counts for a criterion has a score that `int` cannot hold: an infinity.
abbrev pub is_overflow : Conversion → Bool
is_overflow overflow = true
is_overflow _ = false

abbrev pub item_overflows : Runtime → Option Fields → Bool
item_overflows py none = false
item_overflows py (some item) = is_overflow (to_int py (lookup "score" item))

abbrev pub overflows : Runtime → Returned → List CriterionInfo → Bool
overflows py returned =
    any (λ (info : CriterionInfo). item_overflows py (find_item info.criterion_id returned))

clamp_total :
    (info : CriterionInfo) (v : Conversion)
    → (is_overflow v ≡ false → (c : Clamped) × (clamp_score info v ≡ ok c))
      × (is_overflow v ≡ true → clamp_score info v ≡ err overflow_error)
unfolding clamp_score
clamp_total info (number n) = (λ _. (_, refl), λ e. cc)
clamp_total info refused = (λ _. (_, refl), λ e. cc)
clamp_total info overflow = (λ e. absurd (cc), λ _. refl)

criterion_total :
    (py : Runtime) (info : CriterionInfo) (item : Option Fields)
    → (item_overflows py item ≡ false
        → (p : ParsedCriterionScore) × (parse_criterion py info item ≡ ok p))
      × (item_overflows py item ≡ true → parse_criterion py info item ≡ err overflow_error)
unfolding parse_criterion
criterion_total py info none = (λ _. (_, refl), λ e. cc)
criterion_total py info (some item) =
    let v = to_int py (lookup "score" item) in
    (
      λ e. let (c, is) = (clamp_total info v).0 e in (parsed_score py info item c, rw is),
      λ e. rw ((clamp_total info v).1 e),
    )

criteria_total :
    (py : Runtime) (returned : Returned) (criteria : List CriterionInfo)
    → (overflows py returned criteria ≡ false
        → (scores : List ParsedCriterionScore) × (parse_criteria py returned criteria ≡ ok scores))
      × (overflows py returned criteria ≡ true
          → parse_criteria py returned criteria ≡ err overflow_error)
unfolding parse_criteria
criteria_total py returned [] = (λ _. ([], refl), λ e. cc)
criteria_total py returned (info ∷ criteria) =
    let item = find_item info.criterion_id returned in
    let first = criterion_total py info item in
    let rest = criteria_total py returned criteria in
    elim (Bool-cases (item_overflows py item)) [
      | inl over ↦ (λ e. absurd (clash over e), λ _. rw (first.1 over))
      | inr fits ↦
          let (p, parsed) = first.0 fits in
          (
            λ e. let (ps, all) = rest.0 (tail fits e) in (p ∷ ps, rw parsed (rw all)),
            λ e. rw parsed (rw (rest.1 (tail fits e))),
          )
    ]
  where
    clash :
        item_overflows py (find_item info.criterion_id returned) ≡ true
        → overflows py returned (info ∷ criteria) ≡ false
        → ⊥
    clash p q = ground arith

    tail :
        {c : Bool}
        → item_overflows py (find_item info.criterion_id returned) ≡ false
        → overflows py returned (info ∷ criteria) ≡ c
        → overflows py returned criteria ≡ c
    tail p q = ground arith

-- With a well-formed answer the parser returns a result, or raises an OverflowError when the entry
-- that counts for some criterion has an infinite score; it raises nothing else.
pub parse_total :
    (py : Runtime) (raw : String) (criteria : List CriterionInfo) (answer : Fields) (items : Items)
    → decode py raw ≡ ok (answer, items)
    → (overflows py (collect py items []) criteria ≡ false
        → (r : ParsedGradingResponse) × (parse_grading_response py raw criteria ≡ ok r))
      × (overflows py (collect py items []) criteria ≡ true
          → parse_grading_response py raw criteria ≡ err overflow_error)
unfolding parse_grading_response
parse_total py raw criteria answer items decoded =
    let total = criteria_total py (collect py items []) criteria in
    (
      λ e.
          let (scores, parsed) = total.0 e in
          let summary = strip (text_or_empty py (lookup "summary_feedback" answer)) in
          (
            record {
              criterion_scores = scores;
              summary_feedback = or_fallback fallback_summary summary;
            },
            rw decoded (rw parsed),
          ),
      λ e. rw decoded (rw (total.1 e)),
    )
