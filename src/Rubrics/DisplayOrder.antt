-- ===== src/Rubrics/DisplayOrder.antt =====
-- Criteria in the order of their display, as a query returns them.
use rubric_grading_engine.Prelude.{◌≡◌, refl, inl, inr, List, [], ◌∷◌, arith, Bool-cases}
use mathlib.Core.Path.{subst}
use rubric_grading_engine.Prelude.Orders.{sort_by, IsOrdered, insert_by}
use rubric_grading_engine.Rubrics.{RubricCriterion, is_before}

-- Rows in their display order.
abbrev pub InOrder : List RubricCriterion → Type 0
InOrder = IsOrdered is_before

insert-InOrder :
    (x : RubricCriterion) (ys : List RubricCriterion)
    → InOrder ys
    → InOrder (insert_by is_before x ys)
unfolding insert_by
insert-InOrder x [] h = tt
insert-InOrder x (y ∷ []) h = elim (Bool-cases (is_before y x)) [
  | inl after ↦ rw after (ground arith, tt)
  | inr first ↦ rw first (first, tt)
]
insert-InOrder x (y ∷ z ∷ ys) h = elim (Bool-cases (is_before y x)) [
  | inr first ↦ rw first (first, h)
  | inl after ↦ elim (Bool-cases (is_before z x)) [
    | inl later ↦
        let rest = insert-InOrder x (z ∷ ys) h.1 in
        let eq : insert_by is_before x (z ∷ ys) ≡ z ∷ insert_by is_before x ys = rw later refl in
        rw (after, later) (h.0, subst InOrder eq rest)
    | inr here ↦ rw (after, here) (ground arith, (here, h.1))
  ]
]

pub sort-InOrder : (xs : List RubricCriterion) → InOrder (sort_by is_before xs)
unfolding sort_by
sort-InOrder [] = tt
sort-InOrder (x ∷ xs) = insert-InOrder x (sort_by is_before xs) (sort-InOrder xs)
