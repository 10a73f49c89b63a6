-- ===== src/Rubrics/Duplicates.antt =====
-- A duplicate beside its source.
use rubric_grading_engine.Prelude.{
  ℕ, suc, ◌≡◌, refl, sym, ap, ◌∙◌, ◌≢◌, true, false, none, some, List, [], ◌∷◌, ◌++◌, map, arith,
  ◌==◌, ==_refl, select,
}
use rubric_grading_engine.Prelude.Results.{ok, >>=-eq-ok, ok-pair_injective}
use rubric_grading_engine.Prelude.Tables.{get, key-get}
use Prim.Native.String
use mathlib.Core.List.{append-nil}
use rubric_grading_engine.Prelude.Orders.{sort_by, sort_ordered}
use rubric_grading_engine.Rubrics.{
  Rubric, RubricCriterion, Library, Loaded, rubric_row, is_deleted, is_owned_by,
  get_rubric_owned_by, is_before, is_of, get_criteria_for_rubric, get_rubric, new_rubric,
  add_rubric,
}
use rubric_grading_engine.Rubrics.Changes.{copy_criteria, duplicate_rubric}
use rubric_grading_engine.Rubrics.DisplayOrder.{InOrder, sort-InOrder}
use rubric_grading_engine.Rubrics.Reading.{IsReadable, owned_iff, select-append}

-- A criterion without its own id and its rubric's.
abbrev pub content : RubricCriterion → RubricCriterion
content c = record c { id = 0; rubric_id = 0 }

content-copy :
    (new_id : ℕ → ℕ) (k i : ℕ) (cs : List RubricCriterion)
    → map content (copy_criteria new_id k i cs) ≡ map content cs
unfolding copy_criteria
content-copy new_id k i [] = refl
content-copy new_id k i (c ∷ cs) = ap (λ rest. content c ∷ rest) (content-copy new_id k (suc i) cs)

select-copy :
    (new_id : ℕ → ℕ) (k i : ℕ) (cs : List RubricCriterion)
    → select (is_of k) (copy_criteria new_id k i cs) ≡ copy_criteria new_id k i cs
unfolding copy_criteria
select-copy new_id k i [] = refl
select-copy new_id k i (c ∷ cs) = rw (==_refl k, select-copy new_id k (suc i) cs) refl

select-copy_other :
    (new_id : ℕ → ℕ) (j k i : ℕ) (cs : List RubricCriterion)
    → j ≢ k
    → select (is_of j) (copy_criteria new_id k i cs) ≡ []
unfolding copy_criteria
select-copy_other new_id j k i [] h = refl
select-copy_other new_id j k i (c ∷ cs) h =
    let apart : (k == j) ≡ false = ground arith in
    rw (apart, select-copy_other new_id j k (suc i) cs h) refl

copy-InOrder :
    (new_id : ℕ → ℕ) (k i : ℕ) (cs : List RubricCriterion)
    → InOrder cs
    → InOrder (copy_criteria new_id k i cs)
unfolding copy_criteria
copy-InOrder new_id k i [] h = tt
copy-InOrder new_id k i (c ∷ []) h = tt
copy-InOrder new_id k i (c ∷ d ∷ cs) h = (h.0, copy-InOrder new_id k (suc i) (d ∷ cs) h.1)

get-append_new :
    (k : ℕ) (rows : List Rubric) (r : Rubric)
    → get k rows ≡ none
    → r.id ≡ k
    → get k (rows ++ (r ∷ [])) ≡ some r
unfolding get
get-append_new k [] r h same = ground arith
get-append_new k (x ∷ rows) r h same = ground (arith, get-append_new k rows r)

get_rubric_inverse :
    (lib : Library) (t k : ℕ) (r : Rubric) (cs : List RubricCriterion)
    → get_rubric lib t k ≡ ok (r, cs)
    → IsReadable lib k t r × (cs ≡ get_criteria_for_rubric lib.criteria r.id)
unfolding get_rubric
get_rubric_inverse lib t k r cs h =
    let (r', owned, rest) = >>=-eq-ok (get_rubric_owned_by lib k t) _ h in
    let (same, criteria) = ok-pair_injective _ r _ cs rest in
    ((owned_iff lib k t r).0 (rw same owned), rw same criteria)

-- The duplicate is read from the tables it was added to.
read_copy :
    (new_id : ℕ → ℕ) (lib : Library) (new_k t : ℕ) (r : Rubric) (cs : List RubricCriterion)
    → get new_k lib.rubrics ≡ none
    → select (is_of new_k) lib.criteria ≡ []
    → (r.id ≡ new_k) × (is_deleted r ≡ false) × (is_owned_by t r ≡ true)
    → InOrder cs
    → let copies = copy_criteria new_id new_k 0 cs in
      get_rubric (add_rubric lib r copies) t new_k ≡ ok (r, copies)
unfolding get_rubric get_criteria_for_rubric
read_copy new_id lib new_k t r cs unused unused' (id, live, mine) ordered =
    let copies = copy_criteria new_id new_k 0 cs in
    let found = get-append_new new_k lib.rubrics r unused id in
    let owned = (owned_iff (add_rubric lib r copies) new_k t r).1 (found, live, mine) in
    let own : select (is_of new_k) (lib.criteria ++ copies) ≡ copies =
      rw (select-append (is_of new_k) lib.criteria copies, unused', select-copy new_id new_k 0 cs)
        refl in
    let listed : get_criteria_for_rubric (lib.criteria ++ copies) r.id ≡ copies =
      ap (get_criteria_for_rubric (lib.criteria ++ copies)) id
      ∙ ap (sort_by is_before) own
      ∙ sort_ordered is_before copies (copy-InOrder new_id new_k 0 cs ordered) in
    rw (owned) (ap (λ rows. ok (r, rows)) listed)

-- The source's criteria are those before.
source_kept :
    (new_id : ℕ → ℕ) (j new_k : ℕ) (criteria cs : List RubricCriterion)
    → j ≢ new_k
    → get_criteria_for_rubric (criteria ++ copy_criteria new_id new_k 0 cs) j
      ≡ get_criteria_for_rubric criteria j
unfolding get_criteria_for_rubric
source_kept new_id j new_k criteria cs other =
    rw
      (
        select-append (is_of j) criteria (copy_criteria new_id new_k 0 cs),
        select-copy_other new_id j new_k 0 cs other,
        append-nil (select (is_of j) criteria),
      )
      refl

-- A duplicate that returned, under an id that no rubric and no criterion has yet: the teacher can read
-- it, with criteria of the same content and in the same order as the source's, and the source's criteria
-- are what they were.
pub duplicate-get_rubric :
    (new_id : ℕ → ℕ) (now : ℕ) (lib lib' : Library) (new_k t k : ℕ) (copied : Loaded)
    → get new_k lib.rubrics ≡ none
    → select (is_of new_k) lib.criteria ≡ []
    → duplicate_rubric new_id now lib new_k t k ≡ ok (lib', copied)
    → (source : Loaded) × (get_rubric lib t k ≡ ok source)
      × (get_rubric lib' t new_k ≡ ok copied)
      × (copied.0.name ≡ String.◌++◌ "Copy of " source.0.name)
      × (map content copied.1 ≡ map content source.1)
      × (get_criteria_for_rubric lib'.criteria source.0.id ≡ source.1)
unfolding duplicate_rubric get_criteria_for_rubric
duplicate-get_rubric new_id now lib lib' new_k t k copied unused unused' h =
    let (source, read, rest) = >>=-eq-ok (get_rubric lib t k) _ h in
    let (table, made) = ok-pair_injective _ lib' _ copied rest in
    let (readable, criteria) = get_rubric_inverse lib t k source.0 source.1 read in
    let ordered : InOrder source.1 =
      rw criteria (sort-InOrder (select (is_of source.0.id) lib.criteria)) in
    let id = key-get k source.0 lib.rubrics readable.0 in
    let other : source.0.id ≢ new_k =
      λ same. absurd (let k_new : k ≡ new_k = sym id ∙ same in cc) in
    let copied_read =
      read_copy new_id lib new_k t
        (new_rubric now new_k t (String.◌++◌ "Copy of " source.0.name) source.0.description)
        source.1 unused unused' (refl, refl, ==_refl t) ordered in
    (
      source,
      read,
      rw (table, made) copied_read,
      rw made refl,
      rw made (content-copy new_id new_k 0 source.1),
      ap (λ (l : Library). get_criteria_for_rubric l.criteria source.0.id) table
          ∙ source_kept new_id source.0.id new_k lib.criteria source.1 other
          ∙ sym criteria,
    )
