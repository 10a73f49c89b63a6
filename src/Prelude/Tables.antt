-- ===== src/Prelude/Tables.antt =====
-- Database tables: lists of rows with a primary key, and the reads and writes that the services'
-- queries make of them. UUID keys are numbers.
use mathlib.Core.Path.{◌≡◌, refl}
use mathlib.Core.Bool.{Bool, true}
use mathlib.Core.Logic.{◌↔◌}
use mathlib.Core.List.{List, ◌∷◌, []}
use mathlib.Core.Option.{Option, none, some}
use Prim.Native.Nat.{ℕ}
use native.Mathlib.Omega.{arith}
use rubric_grading_engine.Prelude.Tests.{◌==◌, if◌then◌else◌}
use rubric_grading_engine.Prelude.Lists.{find, length}

-- A type of rows with its primary key.
pub record Row {ℓ} (A : Type ℓ) : Type ℓ where
  pub key : A → ℕ

module _ {ℓ} {A : Type ℓ} ⦃r : Row A⦄ where
  -- SELECT … WHERE id = k
  unfoldable pub get : ℕ → List A → Option A
  get k rows = find (λ x. r.key x == k) rows

  -- SELECT … WHERE id = k AND test
  unfoldable pub get_where : ℕ → (A → Bool) → List A → Option A
  get_where k p rows = elim (get k rows) [ none ↦ none | some x ↦ if p x then some x else none ]

  -- UPDATE of the row that has the key of `x`; without such a row nothing changes.
  unfoldable pub put : A → List A → List A
  put x [] = []
  put x (y ∷ rows) = let rest = put x rows in if r.key y == r.key x then x ∷ rows else y ∷ rest

  pub get-put :
      (k : ℕ) (x : A) (rows : List A)
      → get k (put x rows)
        ≡ (if r.key x == k then elim (get k rows) [ none ↦ none | some _ ↦ some x ] else get k rows)
  unfolding get put
  get-put k x [] = ground arith
  get-put k x (y ∷ rows) = ground (arith, get-put k x rows)

  -- A row that is written in place of one with its key is found under the key.
  pub get-put_same :
      (k : ℕ) (x y : A) (rows : List A)
      → get k rows ≡ some y
      → r.key x ≡ k
      → get k (put x rows) ≡ some x
  get-put_same k x y rows found same = let e = get-put k x rows in ground (arith, e, found, same)

  pub length-put : (x : A) (rows : List A) → length (put x rows) ≡ length rows
  unfolding put
  length-put x [] = refl
  length-put x (y ∷ rows) = ground (arith, length-put x rows)

  -- A row that is found has the key that was asked for.
  pub key-get : (k : ℕ) (x : A) (rows : List A) → get k rows ≡ some x → r.key x ≡ k
  unfolding get
  key-get k x [] h = cc
  key-get k x (y ∷ rows) h = ground (arith, key-get k x rows)

  pub get_where_iff :
      (k : ℕ) (p : A → Bool) (rows : List A) (x : A)
      → (get_where k p rows ≡ some x) ↔ ((get k rows ≡ some x) × (p x ≡ true))
  unfolding get_where
  get_where_iff k p rows x = ground arith
