-- ===== src/Parsing/Clamping.antt =====
-- The score of one criterion: in the bounds of the rubric, and flagged whenever it was changed.
use rubric_grading_engine.Prelude.{
  String, ◌≡◌, refl, sym, ap, ◌∙◌, ◌↔◌, inl, inr, true, false, Option, none, some, arith,
  if◌then◌else◌, Bool-cases,
}
use rubric_grading_engine.Prelude.Int.{ℤ, ◌≤ℤ◌}
use rubric_grading_engine.Prelude.Results.{ok, >>=-eq-ok}
use rubric_grading_engine.Models.{low}
use rubric_grading_engine.Parsing.Json.{
  Fields, Runtime, lookup, Conversion, number, refused, overflow, to_int,
}
use rubric_grading_engine.Parsing.Grading.{
  CriterionInfo, ParsedCriterionScore, Clamped, bound, is_outside, clamp_score, is_short,
  missing_score, parsed_score, parse_criterion, fallback_justification,
}

-- What the checks promise of a score: it is missing and the entry says so, or it is in range; a
-- score that was not clamped is the one of the answer, and a clamped one is flagged for review and
-- has low confidence.
pub record IsSound (info : CriterionInfo) (p : ParsedCriterionScore) : Type 0 where
  pub same_id : p.criterion_id ≡ info.criterion_id
  pub in_range : (n : ℤ) → p.score ≡ some n → (info.min_score ≤ℤ n) × (n ≤ℤ info.max_score)
  pub missing_flagged : p.score ≡ none → (p.needs_review ≡ true) × (p.confidence ≡ low)
  pub clamped_flagged : p.score_clamped ≡ true → (p.needs_review ≡ true) × (p.confidence ≡ low)
  pub faithful : p.score_clamped ≡ false → p.raw_score ≡ p.score
  pub justified : is_short p.justification ≡ false

fallback-long : is_short fallback_justification ≡ false
unfolding is_short
fallback-long = refl

justified_always :
    (text : String) → is_short (if is_short text then fallback_justification else text) ≡ false
justified_always text = elim (Bool-cases (is_short text)) [
  | inl short ↦ rw short fallback-long
  | inr long ↦ rw long long
]

missing-IsSound : (info : CriterionInfo) → IsSound info (missing_score info)
unfolding missing_score
missing-IsSound info = record {
  same_id = refl;
  in_range = λ n h. cc;
  missing_flagged = λ _. (refl, refl);
  clamped_flagged = λ h. cc;
  faithful = λ _. refl;
  justified = fallback-long;
}

bound_in_range :
    (info : CriterionInfo) (n : ℤ)
    → info.min_score ≤ℤ info.max_score
    → (info.min_score ≤ℤ bound info n) × (bound info n ≤ℤ info.max_score)
bound_in_range info n h = (ground arith, ground arith)

bound_inside : (info : CriterionInfo) (n : ℤ) → is_outside info n ≡ false → bound info n ≡ n
bound_inside info n h = ground arith

is_outside_iff :
    (info : CriterionInfo) (n : ℤ)
    → (is_outside info n ≡ false) ↔ ((info.min_score ≤ℤ n) × (n ≤ℤ info.max_score))
is_outside_iff info n = ground arith

-- A score that was kept or clamped is in range, and it is the raw one where it was not clamped.
clamp_score_sound :
    (info : CriterionInfo) (v : Conversion) (c : Clamped)
    → info.min_score ≤ℤ info.max_score
    → clamp_score info v ≡ ok c
    → (info.min_score ≤ℤ c.score)
      × (c.score ≤ℤ info.max_score)
      × (c.clamped ≡ false → c.raw ≡ some c.score)
unfolding clamp_score
clamp_score_sound info overflow c ordered h = cc
clamp_score_sound info refused c ordered h =
    let is : c.score ≡ bound info info.min_score = ground arith in
    let range = bound_in_range info info.min_score ordered in
    (rw is range.0, rw is range.1, λ e. ground arith)
clamp_score_sound info (number n) c ordered h =
    let is : c.score ≡ bound info n = ground arith in
    let range = bound_in_range info n ordered in
    let flag : c.clamped ≡ is_outside info n = ground arith in
    let raw : c.raw ≡ some n = ground arith in
    (
      rw is range.0,
      rw is range.1,
      λ e. raw ∙ ap some (sym (is ∙ bound_inside info n (sym flag ∙ e))),
    )

parsed-IsSound :
    (py : Runtime) (info : CriterionInfo) (item : Fields) (v : Conversion) (c : Clamped)
    → info.min_score ≤ℤ info.max_score
    → clamp_score info v ≡ ok c
    → IsSound info (parsed_score py info item c)
unfolding parsed_score clamp_score
parsed-IsSound py info item v c ordered h =
    let sound = clamp_score_sound info v c ordered h in
    record {
      same_id = refl;
      in_range = λ n e. let is : c.score ≡ n = cc in rw (← is) (sound.0, sound.1);
      missing_flagged = λ e. cc;
      clamped_flagged = λ e. ground arith;
      faithful = λ e. sound.2 e;
      justified = justified_always _;
    }

-- Every entry that the parser makes is sound, if the criterion's bounds are in order.
pub parse_criterion-IsSound :
    (py : Runtime) (info : CriterionInfo) (item : Option Fields) (p : ParsedCriterionScore)
    → info.min_score ≤ℤ info.max_score
    → parse_criterion py info item ≡ ok p
    → IsSound info p
unfolding parse_criterion
parse_criterion-IsSound py info none p ordered h =
    let is : missing_score info ≡ p = cc in rw is at (missing-IsSound info)
parse_criterion-IsSound py info (some item) p ordered h =
    let (c, clamped, made) =
      >>=-eq-ok (clamp_score info (to_int py (lookup "score" item)))
        (λ c. ok (parsed_score py info item c)) h in
    let is : parsed_score py info item c ≡ p = cc in
    rw is at (parsed-IsSound py info item (to_int py (lookup "score" item)) c ordered clamped)

-- When the answer has a number for the criterion, the entry is clamped exactly if that number lies
-- outside the bounds, and keeps it as the raw score either way.
pub clamped_iff :
    (py : Runtime) (info : CriterionInfo) (item : Fields) (p : ParsedCriterionScore) (n : ℤ)
    → to_int py (lookup "score" item) ≡ number n
    → parse_criterion py info (some item) ≡ ok p
    → (p.raw_score ≡ some n)
      × ((p.score_clamped ≡ false) ↔ ((info.min_score ≤ℤ n) × (n ≤ℤ info.max_score)))
unfolding parse_criterion clamp_score parsed_score
clamped_iff py info item p n read h =
    let raw : p.raw_score ≡ some n = ground arith in
    let flag : p.score_clamped ≡ is_outside info n = ground arith in
    let iff = is_outside_iff info n in (raw, (λ e. iff.0 (sym flag ∙ e), λ e. flag ∙ iff.1 e))
