-- ===== src/Timeline/Sorting.antt =====
-- The parsed snapshots: a permutation of the readable ones, in order of time.
use mathlib.Core.List.{Perm}
use rubric_grading_engine.Prelude.{
  ℕ, ◌≤◌, ◌≡◌, refl, inl, inr, List, [], ◌∷◌, arith, ltb, Bool-cases, All,
}
use rubric_grading_engine.Prelude.Results.{value_error, Result, ok, err, Result-cases}
use rubric_grading_engine.Prelude.Orders.{insert_by, sort_by, sort-Perm}
use rubric_grading_engine.Timeline.{
  Snapshot, Conversions, ParsedSnap, parse_snapshot, parse_each, is_earlier, parse_snapshots,
}

-- Each timestamp is at most the next one, from the given one on.
unfoldable pub IsSortedFrom : ℕ → List ParsedSnap → Type 0
IsSortedFrom t [] = Unit
IsSortedFrom t (x ∷ xs) = (t ≤ x.ts) × IsSortedFrom x.ts xs

insert-IsSortedFrom :
    (t : ℕ) (x : ParsedSnap) (ys : List ParsedSnap)
    → t ≤ x.ts
    → IsSortedFrom t ys
    → IsSortedFrom t (insert_by is_earlier x ys)
unfolding IsSortedFrom insert_by
insert-IsSortedFrom t x [] h s = (h, tt)
insert-IsSortedFrom t x (y ∷ ys) h s = elim (Bool-cases (ltb y.ts x.ts)) [
  | inl after ↦ rw after (s.0, insert-IsSortedFrom y.ts x ys (ground arith) s.1)
  | inr before ↦ rw before (h, (ground arith, s.1))
]

pub sort-IsSortedFrom : (xs : List ParsedSnap) → IsSortedFrom 0 (sort_by is_earlier xs)
unfolding sort_by IsSortedFrom
sort-IsSortedFrom [] = tt
sort-IsSortedFrom (x ∷ xs) =
    insert-IsSortedFrom 0 x (sort_by is_earlier xs) (omega arith) (sort-IsSortedFrom xs)

-- The snapshots that parse, in the order of the raw list.
unfoldable pub readable :
    {Value : Type 0} → Conversions Value → List (Snapshot Value) → List ParsedSnap
readable c [] = []
readable c (snap ∷ snaps) = elim (parse_snapshot c snap) [
  | ok parsed ↦ parsed ∷ readable c snaps
  | err _ ↦ readable c snaps
]

abbrev pub IsCaught {ℓ} : {A : Type ℓ} → Result A → Type 0
IsCaught (ok _) = Unit
IsCaught (err raised) = raised ≡ value_error

parse_each-readable :
    {Value : Type 0} (c : Conversions Value) (raw : List (Snapshot Value))
    → All (λ snap. IsCaught (parse_snapshot c snap)) raw
    → parse_each c raw ≡ ok (readable c raw)
unfolding readable
parse_each-readable c [] h = refl
parse_each-readable c (snap ∷ snaps) h =
    let rest = parse_each-readable c snaps h.1 in
    elim (Result-cases (parse_snapshot c snap)) [
      | inl (parsed, eq) ↦ ground (arith, eq, rest)
      | inr (raised, eq) ↦
          let caught : raised ≡ value_error = ground arith in ground (arith, eq, caught, rest)
    ]

-- When every snapshot parses or raises an error that the loop catches, the parser returns, and its list
-- is a permutation of the snapshots that parse, in order of time.
parse_snapshots-Perm :
    {Value : Type 0} (c : Conversions Value) (raw : List (Snapshot Value))
    → All (λ snap. IsCaught (parse_snapshot c snap)) raw
    → (parsed : List ParsedSnap) × (parse_snapshots c raw ≡ ok parsed)
      × Perm parsed (readable c raw)
      × IsSortedFrom 0 parsed
unfolding parse_snapshots
parse_snapshots-Perm c raw h = (
  sort_by is_earlier (readable c raw),
  rw (parse_each-readable c raw h) refl,
  sort-Perm is_earlier (readable c raw),
  sort-IsSortedFrom (readable c raw),
)
