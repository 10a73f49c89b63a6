-- ===== src/Grading/Confidence.antt =====
-- The overall confidence of a grade is the lowest of its criteria.
use mathlib.Core.Path.{subst}
use rubric_grading_engine.Prelude.{
  ℕ, ◌≤◌, ◌≡◌, refl, sym, ◌∙◌, ◌⊎◌, inl, inr, Bool, true, false, List, ◌∷◌, arith, ◌==◌, Bool-cases,
  any, All, [],
}
use rubric_grading_engine.Models.{ConfidenceLevel, high, medium, low}
use rubric_grading_engine.Parsing.Grading.{ParsedCriterionScore}
use rubric_grading_engine.Grading.{has_level, is_low, is_medium, derive_overall_confidence}

abbrev pub level : ConfidenceLevel → ℕ
level low = 0
level medium = 1
level high = 2

abbrev pub has_confidence : ConfidenceLevel → List ParsedCriterionScore → Bool
has_confidence c = any (λ (p : ParsedCriterionScore). level p.confidence == level c)

lowest :
    (scores : List ParsedCriterionScore)
    → (has_level is_low scores ≡ has_confidence low scores)
      × (has_level is_medium scores ≡ has_confidence medium scores)
lowest [] = (refl, refl)
lowest (p ∷ scores) = ground (arith, lowest scores)

above :
    (scores : List ParsedCriterionScore)
    → (has_level is_low scores ≡ false
        → All (λ (p : ParsedCriterionScore). 1 ≤ level p.confidence) scores)
      × (has_level is_low scores ≡ false
          → has_level is_medium scores ≡ false
          → All (λ (p : ParsedCriterionScore). 2 ≤ level p.confidence) scores)
above [] = (λ _. tt, λ _ _. tt)
above (p ∷ scores) = let (ih₁, ih₂) = above scores in (λ a. ground arith, λ a b. ground arith)

trivially :
    (scores : List ParsedCriterionScore)
    → All (λ (p : ParsedCriterionScore). 0 ≤ level p.confidence) scores
trivially [] = tt
trivially (p ∷ scores) = (omega arith, trivially scores)

all_high :
    (p : ParsedCriterionScore) (scores : List ParsedCriterionScore)
    → 2 ≤ level p.confidence
    → level p.confidence == 2 ≡ true
all_high p scores h = ground arith

-- The level is at most that of every criterion, and that of some criterion; low if there is none.
abbrev pub IsLowest : List ParsedCriterionScore → ConfidenceLevel → Type 0
IsLowest scores overall =
    All (λ (p : ParsedCriterionScore). level overall ≤ level p.confidence) scores
    × ((has_confidence overall scores ≡ true) ⊎ ((scores ≡ []) × (overall ≡ low)))

derive_cases :
    (p : ParsedCriterionScore) (scores : List ParsedCriterionScore)
    → (has_level is_low (p ∷ scores) ≡ true → derive_overall_confidence (p ∷ scores) ≡ low)
      × (has_level is_low (p ∷ scores) ≡ false
          → has_level is_medium (p ∷ scores) ≡ true
          → derive_overall_confidence (p ∷ scores) ≡ medium)
      × (has_level is_low (p ∷ scores) ≡ false
          → has_level is_medium (p ∷ scores) ≡ false
          → derive_overall_confidence (p ∷ scores) ≡ high)
unfolding derive_overall_confidence
derive_cases p scores = (λ a. rw a, λ a b. rw (a, b), λ a b. rw (a, b))

-- The overall confidence is at most that of every criterion and is that of some criterion; with no
-- criterion it is low.
pub derive_overall_confidence-IsLowest :
    (scores : List ParsedCriterionScore) → IsLowest scores (derive_overall_confidence scores)
unfolding derive_overall_confidence
derive_overall_confidence-IsLowest [] = (tt, inr (refl, refl))
derive_overall_confidence-IsLowest (p ∷ scores) =
    let (to_low, to_medium, to_high) = derive_cases p scores in
    elim (Bool-cases (has_level is_low (p ∷ scores))) [
      | inl some_low ↦
          subst (IsLowest (p ∷ scores)) (sym (to_low some_low))
            (trivially (p ∷ scores), inl (sym (lowest (p ∷ scores)).0 ∙ some_low))
      | inr no_low ↦ elim (Bool-cases (has_level is_medium (p ∷ scores))) [
        | inl some_medium ↦
            subst (IsLowest (p ∷ scores)) (sym (to_medium no_low some_medium))
              ((above (p ∷ scores)).0 no_low, inl (sym (lowest (p ∷ scores)).1 ∙ some_medium))
        | inr no_medium ↦
            let all = (above (p ∷ scores)).1 no_low no_medium in
            subst (IsLowest (p ∷ scores)) (sym (to_high no_low no_medium))
              (all, inl (ground (arith, all_high p scores all.0)))
      ]
    ]
