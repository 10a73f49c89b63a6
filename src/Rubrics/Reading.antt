-- ===== src/Rubrics/Reading.antt =====
-- What a teacher reads of a rubric after an update or a deletion.
use mathlib.Core.List.{Perm}
use mathlib.Core.List.Perm
use rubric_grading_engine.Prelude.{
  ℕ, suc, ◌≡◌, refl, ◌∙◌, ◌≢◌, ◌↔◌, inl, inr, Bool, true, false, Option, none, some, List, [], ◌∷◌,
  ◌++◌, map, arith, ◌==◌, ==_refl, Bool-cases, select,
}
use rubric_grading_engine.Prelude.Results.{ok, >>=-eq-ok, ok-pair_injective}
use rubric_grading_engine.Prelude.Tables.{get, get_where, put, key-get, get-put_same}
use rubric_grading_engine.Prelude.Orders.{IsOrdered, sort_by, sort_ordered, sort-Perm}
use rubric_grading_engine.Rubrics.{
  CriterionObject, Written, build_criteria_orm, row_of, Rubric, RubricCriterion, Decimal,
  RubricCriterionRequest, Library, Loaded, rubric_row, is_deleted, is_owned_by, get_rubric_owned_by,
  is_before, is_of, get_criteria_for_rubric, build_criteria, get_rubric,
}
use rubric_grading_engine.Rubrics.DisplayOrder.{InOrder, sort-InOrder}
use rubric_grading_engine.Rubrics.Changes.{
  RubricChanges, check_weights, change_rubric, replace_criteria, update_rubric,
}

-- The rubric exists, is not deleted and belongs to the teacher.
abbrev pub IsReadable : Library → ℕ → ℕ → Rubric → Type 0
IsReadable lib k t r =
    (get k lib.rubrics ≡ some r) × (is_deleted r ≡ false) × (is_owned_by t r ≡ true)

pub owned_iff :
    (lib : Library) (k t : ℕ) (r : Rubric)
    → (get_rubric_owned_by lib k t ≡ ok r) ↔ IsReadable lib k t r
unfolding get_rubric_owned_by get_where
owned_iff lib k t r = ground arith

pub select-build_other :
    (j : ℕ) (column : Decimal → ℕ) (new_id : ℕ → ℕ) (k i : ℕ)
    (requests : List RubricCriterionRequest)
    → j ≢ k
    → select (is_of j) (build_criteria column new_id k i requests) ≡ []
unfolding build_criteria_orm
select-build_other j column new_id k i [] h = refl
select-build_other j column new_id k i (c ∷ cs) h =
    let apart : (k == j) ≡ false = ground arith in
    rw (apart, select-build_other j column new_id k (suc i) cs h) refl

select-build :
    (column : Decimal → ℕ) (new_id : ℕ → ℕ) (k i : ℕ) (requests : List RubricCriterionRequest)
    → select (is_of k) (build_criteria column new_id k i requests)
      ≡ build_criteria column new_id k i requests
unfolding build_criteria_orm
select-build column new_id k i [] = refl
select-build column new_id k i (c ∷ cs) =
    rw (==_refl k, select-build column new_id k (suc i) cs) refl

build-IsOrdered :
    (column : Decimal → ℕ) (new_id : ℕ → ℕ) (k i : ℕ) (requests : List RubricCriterionRequest)
    → IsOrdered is_before (build_criteria column new_id k i requests)
unfolding build_criteria_orm
build-IsOrdered column new_id k i [] = tt
build-IsOrdered column new_id k i (c ∷ []) = tt
build-IsOrdered column new_id k i (c ∷ d ∷ cs) =
    (ground arith, build-IsOrdered column new_id k (suc i) (d ∷ cs))

pub select-append :
    (p : RubricCriterion → Bool) (xs ys : List RubricCriterion)
    → select p (xs ++ ys) ≡ select p xs ++ select p ys
select-append p [] ys = refl
select-append p (x ∷ xs) ys = elim (Bool-cases (p x)) [
  | inl yes_ ↦ rw (yes_, select-append p xs ys) refl
  | inr no_ ↦ rw (no_, select-append p xs ys) refl
]

-- A rubric that has no criteria yet reads the ones that are built for it.
pub get-build_criteria :
    (column : Decimal → ℕ) (new_id : ℕ → ℕ) (k : ℕ) (requests : List RubricCriterionRequest)
    (cs : List RubricCriterion)
    → select (is_of k) cs ≡ []
    → get_criteria_for_rubric (cs ++ build_criteria column new_id k 0 requests) k
      ≡ build_criteria column new_id k 0 requests
unfolding get_criteria_for_rubric
get-build_criteria column new_id k requests cs unused =
    let built = build_criteria column new_id k 0 requests in
    rw (select-append (is_of k) cs built, unused, select-build column new_id k 0 requests)
      (sort_ordered is_before built (build-IsOrdered column new_id k 0 requests))

-- The rows of the rubric after an update: those that it had, and those of the objects that it made.
abbrev pub rows_after :
    (Decimal → ℕ)
    → Option (List RubricCriterionRequest)
    → List RubricCriterion
    → List CriterionObject
    → List RubricCriterion
rows_after column none old objects = old
rows_after column (some _) old objects = old ++ map (row_of column) objects

get-replace_criteria :
    (column : Decimal → ℕ) (new_id : ℕ → ℕ) (k : ℕ)
    (requests : Option (List RubricCriterionRequest)) (cs : List RubricCriterion)
    → let (table, objects) = replace_criteria column new_id k requests cs in
      Perm
        (get_criteria_for_rubric table k)
        (rows_after column requests (get_criteria_for_rubric cs k) objects)
unfolding replace_criteria get_criteria_for_rubric
get-replace_criteria column new_id k none cs = Perm.refl (sort_by is_before (select (is_of k) cs))
get-replace_criteria column new_id k (some requests) cs =
    let built = build_criteria column new_id k 0 requests in
    let mine = select (is_of k) cs in
    rw (select-append (is_of k) cs built, select-build column new_id k 0 requests)
      (Perm.trans (sort-Perm is_before (mine ++ built))
        (Perm.append_right built (Perm.symm (sort-Perm is_before mine))))

-- What an update that returned did.
update_inverse :
    (column : Decimal → ℕ) (new_id : ℕ → ℕ) (now : ℕ) (lib lib' : Library) (t k : ℕ)
    (changes : RubricChanges) (written : Written)
    → update_rubric column new_id now lib t k changes ≡ ok (lib', written)
    → (r : Rubric) × IsReadable lib k t r
      × (let made = replace_criteria column new_id r.id changes.criteria lib.criteria in
          (written ≡ (change_rubric now changes r, made.1))
          × (lib' ≡ record lib {
            rubrics = put (change_rubric now changes r) lib.rubrics;
            criteria = made.0;
          }))
unfolding update_rubric
update_inverse column new_id now lib lib' t k changes written h =
    let (r, owned, rest) = >>=-eq-ok (get_rubric_owned_by lib k t) _ h in
    let (checked, weights, end_) = >>=-eq-ok (check_weights changes.criteria) _ rest in
    let (table, made) = ok-pair_injective _ lib' _ written end_ in
    (r, (owned_iff lib k t r).0 owned, (made, table))

-- Writing a readable rubric back, with its id, owner and deletion kept, keeps it readable.
put_readable :
    (lib : Library) (k t : ℕ) (r r' : Rubric) (criteria : List RubricCriterion)
    → IsReadable lib k t r
    → r'.id ≡ r.id
    → r'.teacher_id ≡ r.teacher_id
    → r'.deleted_at ≡ r.deleted_at
    → get_rubric_owned_by (record lib { rubrics = put r' lib.rubrics; criteria = criteria }) k t
      ≡ ok r'
put_readable lib k t r r' criteria (found, live, mine) id teacher deleted =
    let key = key-get k r lib.rubrics found in
    (owned_iff (record lib { rubrics = put r' lib.rubrics; criteria = criteria }) k t r').1
      ((get-put_same k r' r lib.rubrics found (id ∙ key), (rw deleted live), (rw teacher mine)))

-- After an update that returned, the teacher reads the rubric that it returned. Its criteria, in order
-- of display, are those that were read before when the update gave none. When it gave some, they are
-- the old ones and the rows of the returned ones together: the old criteria are not replaced.
pub update-get_rubric :
    (column : Decimal → ℕ) (new_id : ℕ → ℕ) (now : ℕ) (lib lib' : Library) (t k : ℕ)
    (changes : RubricChanges) (written : Written)
    → update_rubric column new_id now lib t k changes ≡ ok (lib', written)
    → (old : Loaded) × (cs : List RubricCriterion) × (get_rubric lib t k ≡ ok old)
      × (get_rubric lib' t k ≡ ok (written.0, cs))
      × InOrder cs
      × Perm cs (rows_after column changes.criteria old.1 written.1)
unfolding get_rubric change_rubric get_criteria_for_rubric
update-get_rubric column new_id now lib lib' t k changes written h =
    let (r, readable, (made, table)) =
      update_inverse column new_id now lib lib' t k changes written h in
    let replaced = replace_criteria column new_id r.id changes.criteria lib.criteria in
    let after =
      put_readable lib k t r (change_rubric now changes r) replaced.0 readable refl refl refl in
    let before = (owned_iff lib k t r).1 readable in
    (
      (r, get_criteria_for_rubric lib.criteria r.id),
      get_criteria_for_rubric replaced.0 r.id,
      rw before refl,
      rw (table, made, after) refl,
      sort-InOrder (select (is_of r.id) replaced.0),
      rw made (get-replace_criteria column new_id r.id changes.criteria lib.criteria),
    )
