-- ===== src/Skills.antt =====
-- backend/app/services/skill_normalization.py: the skill dimension of a criterion's name. Scores and the
-- threshold are percentages in any unit, `unit` of which are one per cent; a score that stands for the
-- source's -1.0 is negative. The mapping is a Python dict: its pairs in the order of insertion.
pub mod Dimensions
use Prim.Native.String
use rubric_grading_engine.Prelude.{ℕ, ◌*◌, String, not, ◌&&◌, List, [], ◌∷◌, if◌then◌else◌}
use rubric_grading_engine.Prelude.Int.{ℤ, pos, negsuc, ltb_ℤ, leb_ℤ}
use rubric_grading_engine.Prelude.Results.{value_error, Result, ok, ◌>>=◌, ◌>>◌, raise_if}
use rubric_grading_engine.Prelude.Texts.{str_eq, has_text}
use rubric_grading_engine.Parsing.Text.{strip}
use rubric_grading_engine.Matching.{Fuzz, max}

abbrev pub canonical_dimensions : List String
canonical_dimensions =
    "thesis" ∷ "evidence" ∷ "organization" ∷ "analysis" ∷ "mechanics" ∷ "voice" ∷ "other" ∷ []

abbrev pub Mapping : Type 0
Mapping = List (String × List String)

-- One variant's score, lowered first.
unfoldable pub variant_score : Fuzz → String → String → ℕ
variant_score fuzz criterion_lower variant =
    let v = fuzz.lower variant in
    max (fuzz.ratio criterion_lower v) (fuzz.token_sort_ratio criterion_lower v)

-- `if score > best: best = score`, over the variants.
abbrev pub best_from : Fuzz → String → ℕ → List String → ℕ
best_from fuzz criterion_lower best [] = best
best_from fuzz criterion_lower best (v ∷ variants) =
    best_from fuzz criterion_lower (max best (variant_score fuzz criterion_lower v)) variants

unfoldable pub best_variant_score : Fuzz → String → List String → ℕ
best_variant_score fuzz criterion_lower variants = best_from fuzz criterion_lower 0 variants

-- The best dimension so far and its score.
abbrev pub Choice : Type 0
Choice = String × ℤ

unfoldable pub consider : Fuzz → ℤ → String → Choice → String → List String → Choice
consider fuzz threshold criterion_lower (best, score) dimension variants =
    let new : ℤ = pos (best_variant_score fuzz criterion_lower (dimension ∷ variants)) in
    if str_eq dimension "other"
    then (best, score)
    else if leb_ℤ threshold new && ltb_ℤ score new
    then (dimension, new)
    else (best, score)

abbrev pub consider_all : Fuzz → ℤ → String → Choice → Mapping → Choice
consider_all fuzz threshold criterion_lower choice [] = choice
consider_all fuzz threshold criterion_lower choice ((dimension, variants) ∷ mapping) =
    consider_all fuzz threshold criterion_lower
      (consider fuzz threshold criterion_lower choice dimension variants) mapping

-- With the mapping that is given or loaded.
unfoldable pub normalize_criterion_name : Fuzz → ℤ → Mapping → String → Result String
normalize_criterion_name fuzz threshold mapping criterion_name = do
  raise_if (not (leb_ℤ (pos 0) threshold && leb_ℤ threshold (pos (100 * fuzz.unit)))) value_error
  let criterion_lower = fuzz.lower (strip criterion_name)
  let chosen = consider_all fuzz threshold criterion_lower ("other", negsuc 0) mapping
  ok (if has_text criterion_lower canonical_dimensions then criterion_lower else chosen.0)
