-- ===== src/Prelude/Texts.antt =====
-- Equality of texts as a test, and lists of texts without repetition.
pub use text.Mathlib.Text.{◌==◌ as str_eq}
use text.Mathlib.Text.{is_eq}
use text.Mathlib.TextEquality.{path_by_compare}
use text.Mathlib.TextPositions.{compare_refl}
use Prim.Native.Nat.{Ordering}
use Prim.Native.String.{String, compare}
use mathlib.Core.Path.{◌≡◌, refl}
use mathlib.Core.Bool.{Bool, true, false}
use mathlib.Core.Logic.{◌↔◌}
use mathlib.Core.List.{List, [], ◌∷◌}
use rubric_grading_engine.Prelude.Lists.{any}

is_eq_path : (o : Ordering) → is_eq o ≡ true → o ≡ Ordering.eq
is_eq_path Ordering.lt h = cc
is_eq_path Ordering.eq h = refl
is_eq_path Ordering.gt h = cc

pub str_eq_iff : (s t : String) → (str_eq s t ≡ true) ↔ (s ≡ t)
str_eq_iff s t =
    (λ h. path_by_compare s t (is_eq_path (compare s t) h), λ h. rw (h, compare_refl t) refl)

-- The text is one of the list.
abbrev pub has_text : String → List String → Bool
has_text s texts = any (λ t. str_eq t s) texts

-- No text occurs twice.
abbrev pub AreDistinct : List String → Type 0
AreDistinct [] = Unit
AreDistinct (s ∷ texts) = (has_text s texts ≡ false) × AreDistinct texts
