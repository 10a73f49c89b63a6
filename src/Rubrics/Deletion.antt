-- ===== src/Rubrics/Deletion.antt =====
-- Which rubrics may be deleted, and what is left of them.
use rubric_grading_engine.Prelude.{
  ℕ, ◌<◌, ◌≡◌, refl, ◌↔◌, ◌⊎◌, inl, inr, Bool, true, not, ◌&&◌, none, some, List, [], ◌∷◌, arith,
  ltb, ◌==◌, ltb→lt, ==_iff, Bool-cases, Option-cases, count_if, All,
}
use rubric_grading_engine.Prelude.Results.{not_found, rubric_in_use, ok, err}
use rubric_grading_engine.Prelude.Tables.{get_where, put, key-get, get-put_same}
use rubric_grading_engine.Models.{Assignment, AssignmentStatus, review}
use rubric_grading_engine.Models.Store.{Db, owner_of_assignment}
use rubric_grading_engine.Rubrics.{
  Rubric, Library, rubric_row, is_deleted, get_rubric_owned_by, get_rubric,
}
use rubric_grading_engine.Rubrics.Changes.{is_blocking, owns, blocks, delete_rubric}
use rubric_grading_engine.Rubrics.Reading.{IsReadable, owned_iff}

-- A deleted rubric is not found, whoever reads it.
deleted_not_found :
    (lib : Library) (k t reader now : ℕ) (r : Rubric)
    → IsReadable lib k t r
    → get_rubric
        (record lib { rubrics = put (record r { deleted_at = some now }) lib.rubrics })
        reader
        k
      ≡ err not_found
unfolding get_rubric get_rubric_owned_by get_where
deleted_not_found lib k t reader now r (found, live, mine) =
    let gone : Rubric = record r { deleted_at = some now } in
    let kept = get-put_same k gone r lib.rubrics found (key-get k r lib.rubrics found) in
    let none_ : get_where k (λ x. not (is_deleted x)) (put gone lib.rubrics) ≡ none =
      rw (get_where, kept) refl in
    rw (get_rubric, get_rubric_owned_by, none_) refl

-- The assignment keeps the teacher's rubric from being deleted: it uses it, it is open, being graded or
-- in review, and its class is the teacher's.
abbrev pub IsBlocking : Db → ℕ → ℕ → Assignment → Type 0
IsBlocking db t k a =
    (a.rubric_id ≡ k)
    × ((a.status ≡ AssignmentStatus.open_)
        ⊎ (a.status ≡ AssignmentStatus.grading)
        ⊎ (a.status ≡ review))
    × (owner_of_assignment db a ≡ some t)

status_iff :
    (s : AssignmentStatus)
    → (is_blocking s ≡ true)
      ↔ ((s ≡ AssignmentStatus.open_) ⊎ (s ≡ AssignmentStatus.grading) ⊎ (s ≡ review))
status_iff s = ground arith

owns_iff :
    (db : Db) (t : ℕ) (a : Assignment) → (owns db t a ≡ true) ↔ (owner_of_assignment db a ≡ some t)
owns_iff db t a = elim (Option-cases (owner_of_assignment db a)) [
  | inl none_ ↦ rw none_ (λ h. absurd cc, λ h. absurd cc)
  | inr (owner, is) ↦ rw is (λ h. ground (arith, h), λ h. ground (arith, h))
]

all_three : (x y z : Bool) → ((x && y && z) ≡ true) ↔ ((x ≡ true) × (y ≡ true) × (z ≡ true))
all_three x y z = ground arith

blocks-IsBlocking :
    (db : Db) (t k : ℕ) (a : Assignment) → (blocks db t k a ≡ true) ↔ IsBlocking db t k a
blocks-IsBlocking db t k a =
    let (apart, together) = all_three (a.rubric_id == k) (is_blocking a.status) (owns db t a) in
    let (used, using) = ==_iff a.rubric_id k in
    let (stands, standing) = status_iff a.status in
    let (mine, owning) = owns_iff db t a in
    (
      (λ h. let (x, y, z) = apart h in (used x, stands y, mine z)),
      (λ (x, y, z). together (using x, standing y, owning z)),
    )

-- Some element of the list satisfies the predicate.
abbrev pub Exists : (Assignment → Type 0) → List Assignment → Type 0
Exists P [] = ⊥
Exists P (x ∷ xs) = P x ⊎ Exists P xs

counted :
    (db : Db) (t k : ℕ) (xs : List Assignment)
    → 0 < count_if (blocks db t k) xs
    → Exists (IsBlocking db t k) xs
counted db t k [] h = absurd (omega (arith, h))
counted db t k (x ∷ xs) h = elim (Bool-cases (blocks db t k x)) [
  | inl yes_ ↦ inl ((blocks-IsBlocking db t k x).0 yes_)
  | inr no_ ↦ inr (counted db t k xs (ground (arith, h, no_)))
]

uncounted :
    (db : Db) (t k : ℕ) (xs : List Assignment)
    → count_if (blocks db t k) xs ≡ 0
    → All (λ a. ¬ IsBlocking db t k a) xs
uncounted db t k [] h = tt
uncounted db t k (x ∷ xs) h = elim (Bool-cases (blocks db t k x)) [
  | inl yes_ ↦ absurd (ground (arith, h, yes_))
  | inr no_ ↦ (
    λ is. absurd (let yes_ = (blocks-IsBlocking db t k x).1 is in cc),
    uncounted db t k xs (ground (arith, h, no_)),
  )
]

-- A deletion of a rubric that the teacher can read: it is refused for its use, and then one of the
-- teacher's assignments with that rubric is open, being graded or in review; or none is, and the deletion
-- returns and nobody finds the rubric any more.
pub delete-cases :
    (now : ℕ) (lib : Library) (t k : ℕ) (r : Rubric)
    → IsReadable lib k t r
    → ((delete_rubric now lib t k ≡ err rubric_in_use)
        × Exists (IsBlocking lib.db t k) lib.db.assignments)
      ⊎ ((lib' : Library) × (delete_rubric now lib t k ≡ ok lib')
          × All (λ a. ¬ IsBlocking lib.db t k a) lib.db.assignments
          × ((reader : ℕ) → get_rubric lib' reader k ≡ err not_found))
unfolding delete_rubric
delete-cases now lib t k r readable =
    let owned = (owned_iff lib k t r).1 readable in
    let used = count_if (blocks lib.db t k) lib.db.assignments in
    elim (Bool-cases (ltb 0 used)) [
      | inl blocked ↦ inl (
        rw (delete_rubric, owned, blocked) refl,
        counted lib.db t k lib.db.assignments (ltb→lt 0 used blocked),
      )
      | inr free ↦ inr (
        _,
        rw (delete_rubric, owned, free) refl,
        uncounted lib.db t k lib.db.assignments (ground arith),
        λ reader. deleted_not_found lib k t reader now r readable,
      )
    ]
