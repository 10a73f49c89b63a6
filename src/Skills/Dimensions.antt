-- ===== src/Skills/Dimensions.antt =====
-- Which dimension a criterion's name gets.
use mathlib.Core.Path.{subst}
use rubric_grading_engine.Prelude.{
  ℕ, ◌*◌, ◌<◌, String, ◌≡◌, refl, sym, ap, ◌⊎◌, inl, inr, Bool, true, false, not, ◌&&◌, List, [],
  ◌∷◌, ◌++◌, map, arith, Bool-cases, All, All_map,
}
use rubric_grading_engine.Prelude.Int.{ℤ, pos, negsuc, ◌≤ℤ◌, ltb_ℤ, leb_ℤ}
use rubric_grading_engine.Prelude.Results.{ok}
use rubric_grading_engine.Prelude.Texts.{str_eq, has_text}
use rubric_grading_engine.Parsing.Text.{strip}
use rubric_grading_engine.Matching.{Fuzz}
use rubric_grading_engine.Skills.{
  canonical_dimensions, Mapping, best_variant_score, Choice, consider, consider_all,
  normalize_criterion_name,
}

abbrev pub dimensions : Mapping → List String
dimensions mapping = map (λ d. d.0) mapping

-- The threshold that the source accepts.
abbrev pub IsInRange : Fuzz → ℤ → Type 0
IsInRange fuzz threshold = (pos 0 ≤ℤ threshold) × (threshold ≤ℤ pos (100 * fuzz.unit))

abbrev pub Dimension : Type 0
Dimension = String × List String

module _ (fuzz : Fuzz) (threshold : ℤ) (criterion_lower : String) where
  -- The dimension's best score, its own name included.
  abbrev pub score_of : Dimension → ℕ
  score_of d = best_variant_score fuzz criterion_lower (d.0 ∷ d.1)

  -- A dimension that counts: it is not "other" and its score reaches the threshold.
  abbrev pub counts : Dimension → Bool
  counts d = not (str_eq d.0 "other") && leb_ℤ threshold (pos (score_of d))

  -- If the dimension counts, its score is at most `s`.
  abbrev pub IsAtMost : ℤ → Dimension → Type 0
  IsAtMost s d = counts d ≡ true → pos (score_of d) ≤ℤ s

  -- The dimension counts; those before it that count have lower scores, those after it none higher.
  pub record Winner (mapping : Mapping) (d : Dimension) : Type 0 where
    pub before : Mapping
    pub after : Mapping
    pub split : mapping ≡ before ++ (d ∷ after)
    pub wins : counts d ≡ true
    pub first : All (λ e. counts e ≡ true → score_of e < score_of d) before
    pub highest : All (IsAtMost (pos (score_of d))) after

  all_at_most :
      (s s' : ℤ) (mapping : Mapping)
      → s ≤ℤ s'
      → All (IsAtMost s) mapping
      → All (IsAtMost s') mapping
  all_at_most s s' mapping le all =
      All_map mapping (λ d at_most c. let h = at_most c in omega (arith, h, le)) all

  consider-cases :
      (best : String) (s : ℤ) (d : Dimension)
      → ((consider fuzz threshold criterion_lower (best, s) d.0 d.1 ≡ (best, s)) × IsAtMost s d)
        ⊎ ((consider fuzz threshold criterion_lower (best, s) d.0 d.1 ≡ (d.0, pos (score_of d)))
            × (counts d ≡ true)
            × (ltb_ℤ s (pos (score_of d)) ≡ true))
  unfolding consider
  consider-cases best s d = elim (Bool-cases (str_eq d.0 "other")) [
    | inl other ↦ inl (rw other refl, λ c. absurd (ground arith))
    | inr dim ↦ elim (Bool-cases (leb_ℤ threshold (pos (score_of d)))) [
      | inr below ↦ inl (rw (dim, below) refl, λ c. absurd (ground arith))
      | inl above ↦ elim (Bool-cases (ltb_ℤ s (pos (score_of d)))) [
        | inl more ↦ inr (rw (dim, above, more) refl, rw (dim, above) refl, more)
        | inr less ↦ inl (rw (dim, above, less) refl, λ c. ground arith)
      ]
    ]
  ]

  -- What a scan from a choice ends with: that choice, or a winner.
  abbrev EndsWith : String → ℤ → Mapping → Choice → Type 0
  EndsWith best s mapping choice =
      ((choice.0 ≡ best) × All (IsAtMost s) mapping)
      ⊎ ((d : Dimension) × (choice.0 ≡ d.0)
          × (ltb_ℤ s (pos (score_of d)) ≡ true)
          × Winner mapping d)

  choice-cases :
      (best : String) (s : ℤ) (mapping : Mapping)
      → EndsWith best s mapping (consider_all fuzz threshold criterion_lower (best, s) mapping)
  choice-cases best s [] = inl (refl, tt)
  choice-cases best s (d ∷ mapping) = elim (consider-cases best s d) [
    | inl (kept, at_most) ↦
        subst
          (λ c.
            EndsWith best s (d ∷ mapping) (consider_all fuzz threshold criterion_lower c mapping))
          (sym kept)
          (elim (choice-cases best s mapping) [
            | inl (none_, all) ↦ inl (none_, (at_most, all))
            | inr (e, chosen, more, w) ↦ inr (
              e,
              chosen,
              more,
              record {
                before = d ∷ w.before;
                after = w.after;
                split = ap (λ rest. d ∷ rest) w.split;
                wins = w.wins;
                first = (λ c. let h = at_most c in ground (arith, h, more), w.first);
                highest = w.highest;
              },
            )
          ])
    | inr (taken, c, more) ↦
        subst
          (λ c.
            EndsWith best s (d ∷ mapping) (consider_all fuzz threshold criterion_lower c mapping))
          (sym taken)
          (elim (choice-cases d.0 (pos (score_of d)) mapping) [
            | inl (same, all) ↦ inr (
              d,
              same,
              more,
              record {
                before = [];
                after = mapping;
                split = refl;
                wins = c;
                first = tt;
                highest = all;
              },
            )
            | inr (e, chosen, more', w) ↦ inr (
              e,
              chosen,
              ground (arith, more, more'),
              record {
                before = d ∷ w.before;
                after = w.after;
                split = ap (λ rest. d ∷ rest) w.split;
                wins = w.wins;
                first = (λ _. ground (arith, more'), w.first);
                highest = w.highest;
              },
            )
          ])
  ]

below_no_counts :
    (fuzz : Fuzz) (threshold : ℤ) (lowered : String) (d : Dimension)
    → IsAtMost fuzz threshold lowered (negsuc 0) d
    → counts fuzz threshold lowered d ≡ false
below_no_counts fuzz threshold lowered d h = elim (Bool-cases (counts fuzz threshold lowered d)) [
  | inl c ↦ let le = h c in absurd (omega (arith, le))
  | inr no_ ↦ no_
]

-- What the source promises of the dimension it answers.
abbrev pub IsDimension : Fuzz → ℤ → Mapping → String → String → Type 0
IsDimension fuzz threshold mapping lowered answer =
    ((has_text lowered canonical_dimensions ≡ true) × (answer ≡ lowered))
    ⊎ ((has_text lowered canonical_dimensions ≡ false)
        × (((answer ≡ "other") × All (λ d. counts fuzz threshold lowered d ≡ false) mapping)
            ⊎ ((d : Dimension) × (answer ≡ d.0) × Winner fuzz threshold lowered mapping d)))

-- With a threshold in the accepted range, the name of a canonical dimension, trimmed and lowered, is its
-- own answer; any other name is answered by the first of the dimensions with the highest score among those
-- that reach the threshold, "other" excepted, and by "other" exactly when none reaches it.
pub normalize-IsDimension :
    (fuzz : Fuzz) (threshold : ℤ) (mapping : Mapping) (name : String)
    → IsInRange fuzz threshold
    → (answer : String) × (normalize_criterion_name fuzz threshold mapping name ≡ ok answer)
      × IsDimension fuzz threshold mapping (fuzz.lower (strip name)) answer
unfolding normalize_criterion_name
normalize-IsDimension fuzz threshold mapping name (low, high) =
    let lowered = fuzz.lower (strip name) in
    let accepted : (leb_ℤ (pos 0) threshold && leb_ℤ threshold (pos (100 * fuzz.unit))) ≡ true =
      ground (arith, low, high) in
    let chosen = (consider_all fuzz threshold lowered ("other", negsuc 0) mapping).0 in
    elim (Bool-cases (has_text lowered canonical_dimensions)) [
      | inl canonical ↦
          (lowered, rw (normalize_criterion_name, accepted, canonical) refl, inl (canonical, refl))
      | inr other ↦ (
        chosen,
        rw (normalize_criterion_name, accepted, other) refl,
        inr (
          other,
          elim (choice-cases fuzz threshold lowered "other" (negsuc 0) mapping) [
            | inl (none_, all) ↦
                inl (none_, All_map mapping (λ d. below_no_counts fuzz threshold lowered d) all)
            | inr (d, is, more, w) ↦ inr (d, is, w)
          ],
        ),
      )
    ]
