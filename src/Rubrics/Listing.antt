-- ===== src/Rubrics/Listing.antt =====
-- list_rubrics: two queries, whose rows a loop groups. Without a rubric the source returns before the
-- second query; the answer is the same empty list.
use rubric_grading_engine.Prelude.{
  ◌||◌, ℕ, Bool, not, ◌&&◌, List, [], ◌∷◌, ◌++◌, map, ltb, ◌==◌, if◌then◌else◌, select, any,
}
use rubric_grading_engine.Prelude.Orders.{sort_by}
use rubric_grading_engine.Rubrics.{
  Rubric, RubricCriterion, Library, Loaded, is_deleted, is_owned_by, is_before,
}

-- ORDER BY rubric_id, display_order
abbrev pub is_before_in_batch : RubricCriterion → RubricCriterion → Bool
is_before_in_batch x y =
    ltb x.rubric_id y.rubric_id || (x.rubric_id == y.rubric_id && is_before x y)

-- `criteria_by_rubric`, as the loop over the rows in order fills it: an association list, in which a
-- row goes to the end of its rubric's list.
abbrev pub Grouped : Type 0
Grouped = List (ℕ × List RubricCriterion)

unfoldable pub append_to_group : RubricCriterion → Grouped → Grouped
append_to_group c [] = (c.rubric_id, c ∷ []) ∷ []
append_to_group c ((k, cs) ∷ groups) =
    let rest = append_to_group c groups in
    if c.rubric_id == k then (k, cs ++ (c ∷ [])) ∷ groups else (k, cs) ∷ rest

abbrev pub group_criteria : Grouped → List RubricCriterion → Grouped
group_criteria groups [] = groups
group_criteria groups (c ∷ cs) = group_criteria (append_to_group c groups) cs

-- `criteria_by_rubric.get(k, [])`
unfoldable pub group_of : ℕ → Grouped → List RubricCriterion
group_of k [] = []
group_of k ((j, cs) ∷ groups) = let rest = group_of k groups in if k == j then cs else rest

-- Newest first: the rows in the reverse order of their creation.
abbrev pub newest_first {ℓ} : {A : Type ℓ} → List A → List A
newest_first [] = []
newest_first (x ∷ xs) = newest_first xs ++ (x ∷ [])

unfoldable pub list_rubrics : Library → ℕ → List Loaded
list_rubrics lib t =
    let rubrics = newest_first (select (λ r. is_owned_by t r && not (is_deleted r)) lib.rubrics) in
    let wanted = λ (c : RubricCriterion). any (λ (r : Rubric). r.id == c.rubric_id) rubrics in
    let groups = group_criteria [] (sort_by is_before_in_batch (select wanted lib.criteria)) in
    map (λ r. (r, group_of r.id groups)) rubrics
