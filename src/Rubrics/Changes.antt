-- ===== src/Rubrics/Changes.antt =====
-- update_rubric, delete_rubric and duplicate_rubric.
use rubric_grading_engine.Prelude.{
  ℕ, suc, String, Bool, true, false, ◌&&◌, Option, none, some, List, [], ◌∷◌, ◌++◌, map, ltb, ◌==◌,
  count_if,
}
use rubric_grading_engine.Prelude.Results.{rubric_in_use, Result, ok, ◌>>=◌, ◌>>◌, raise_if}
use rubric_grading_engine.Prelude.Tables.{put}
use Prim.Native.String
use rubric_grading_engine.Models.{Assignment, AssignmentStatus, review, class_row, assignment_row}
use rubric_grading_engine.Models.Store.{Db, owner_of_assignment}
use rubric_grading_engine.Rubrics.{
  CriterionObject, Written, build_criteria_orm, row_of, object_of, Decimal, Library, Loaded, Rubric,
  RubricCriterion, RubricCriterionRequest, add_rubric, get_criteria_for_rubric, get_rubric,
  get_rubric_owned_by, new_rubric, rubric_row, validate_weight_sum,
}

-- What an update may set. The outer option of the description is `update_description`.
pub record RubricChanges : Type 0 where
  pub name : Option String
  pub description : Option (Option String)
  pub criteria : Option (List RubricCriterionRequest)

abbrev pub or_keep {ℓ} : {A : Type ℓ} → Option A → A → A
or_keep none a = a
or_keep (some b) a = b

abbrev pub check_weights : Option (List RubricCriterionRequest) → Result (Unit {0})
check_weights none = ok tt
check_weights (some requests) = validate_weight_sum requests

-- The row's own writes: `updated_at` is set by hand when criteria are given. The column's hook,
-- which also sets it when another column changes, is left out.
unfoldable pub change_rubric : ℕ → RubricChanges → Rubric → Rubric
change_rubric now changes rubric = record rubric {
  name = or_keep changes.name rubric.name;
  description = or_keep changes.description rubric.description;
  updated_at = elim changes.criteria [ none ↦ rubric.updated_at | some _ ↦ now ];
}

-- The table after the new rows are added, and the rubric's criteria as the session holds them. The calls
-- of `db.delete` on the old rows make coroutines that nothing awaits, so the old rows stay.
unfoldable pub replace_criteria :
    (Decimal → ℕ)
    → (ℕ → ℕ)
    → ℕ
    → Option (List RubricCriterionRequest)
    → List RubricCriterion
    → List RubricCriterion × List CriterionObject
replace_criteria column new_id k none criteria =
    (criteria, map object_of (get_criteria_for_rubric criteria k))
replace_criteria column new_id k (some requests) criteria =
    let new_criteria = build_criteria_orm new_id k 0 requests in
    (criteria ++ map (row_of column) new_criteria, new_criteria)

unfoldable pub update_rubric :
    (Decimal → ℕ) → (ℕ → ℕ) → ℕ → Library → ℕ → ℕ → RubricChanges → Result (Library × Written)
update_rubric column new_id now lib t k changes = do
  rubric ← get_rubric_owned_by lib k t
  check_weights changes.criteria
  let rubric' = change_rubric now changes rubric
  let (table, criteria) = replace_criteria column new_id rubric.id changes.criteria lib.criteria
  ok (record lib { rubrics = put rubric' lib.rubrics; criteria = table }, (rubric', criteria))

-- `_BLOCKING_STATUSES`
abbrev pub is_blocking : AssignmentStatus → Bool
is_blocking AssignmentStatus.open_ = true
is_blocking AssignmentStatus.grading = true
is_blocking review = true
is_blocking _ = false

abbrev pub owns : Db → ℕ → Assignment → Bool
owns db t a = elim (owner_of_assignment db a) [ none ↦ false | some owner ↦ owner == t ]

abbrev pub blocks : Db → ℕ → ℕ → Assignment → Bool
blocks db t k a = a.rubric_id == k && is_blocking a.status && owns db t a

unfoldable pub delete_rubric : ℕ → Library → ℕ → ℕ → Result Library
delete_rubric now lib t k = do
  rubric ← get_rubric_owned_by lib k t
  raise_if (ltb 0 (count_if (blocks lib.db t k) lib.db.assignments)) rubric_in_use
  ok (record lib { rubrics = put (record rubric { deleted_at = some now }) lib.rubrics })

-- Copies with the new rubric's id; the criteria's ids are drawn, numbered from `i`.
unfoldable pub copy_criteria : (ℕ → ℕ) → ℕ → ℕ → List RubricCriterion → List RubricCriterion
copy_criteria new_id k i [] = []
copy_criteria new_id k i (c ∷ cs) =
    record c { id = new_id i; rubric_id = k } ∷ copy_criteria new_id k (suc i) cs

unfoldable pub duplicate_rubric : (ℕ → ℕ) → ℕ → Library → ℕ → ℕ → ℕ → Result (Library × Loaded)
duplicate_rubric new_id now lib new_k t k = do
  (source, criteria) ← get_rubric lib t k
  let rubric = new_rubric now new_k t (String.◌++◌ "Copy of " source.name) source.description
  let copies = copy_criteria new_id new_k 0 criteria
  ok (add_rubric lib rubric copies, (rubric, copies))
