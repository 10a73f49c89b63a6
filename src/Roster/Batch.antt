-- ===== src/Roster/Batch.antt =====
-- The external ids of the rows that an import writes.
use rubric_grading_engine.Prelude.{
  ℕ, String, ◌≡◌, refl, ◌∙◌, ◌⊎◌, inl, inr, true, false, Option, none, some, List, [], ◌∷◌,
  if◌then◌else◌, Bool-cases, Option-cases,
}
use rubric_grading_engine.Prelude.Results.{ok, >>=-eq-ok}
use mathlib.Core.Path.{subst}
use rubric_grading_engine.Prelude.Texts.{str_eq, str_eq_iff, has_text, AreDistinct}
use rubric_grading_engine.Parsing.Text.{is_empty}
use rubric_grading_engine.Roster.{Text, ParsedRow, new, updated, skipped, error, DiffRow}
use rubric_grading_engine.Roster.Commit.{
  RosterStudent, Roster, assert_class_owned_by, enrolled_students, students_of, by_external_id,
  fuzzy_name_match, diff_by_name, diff_by_id, id_of, diff_one, see, diff_all, build_import_diff,
}

abbrev pub truthy : Option String → Option String
truthy none = none
truthy (some x) = if is_empty x then none else some x

-- The external id of a row that creates or enrolls a student.
abbrev pub written_id : DiffRow → Option String
written_id d = elim d.status [
  | new ↦ truthy d.external_id
  | updated ↦ truthy d.external_id
  | skipped ↦ none
  | error ↦ none
]

abbrev pub cons_if : Option String → List String → List String
cons_if none xs = xs
cons_if (some x) xs = x ∷ xs

abbrev pub written_ids : List DiffRow → List String
written_ids [] = []
written_ids (d ∷ ds) = cons_if (written_id d) (written_ids ds)

truthy_id : (row : ParsedRow) → truthy row.external_id ≡ id_of row
truthy_id row = elim (Option-cases row.external_id) [
  | inl none_ ↦ rw none_ refl
  | inr (x, is) ↦ rw is refl
]

module _ (py : Text) (enrolled all : List RosterStudent) where
  named-cases :
      (row : ParsedRow)
      → (written_id (diff_by_name py enrolled row) ≡ none)
        ⊎ (written_id (diff_by_name py enrolled row) ≡ id_of row)
  unfolding diff_by_name
  named-cases row = elim (Bool-cases (fuzzy_name_match py row.full_name enrolled)) [
    | inl similar ↦ inl (rw similar refl)
    | inr apart ↦ inr (rw apart (truthy_id row))
  ]

  identified-cases :
      (row : ParsedRow) (x : String)
      → (written_id (diff_by_id py enrolled all row x) ≡ none)
        ⊎ (written_id (diff_by_id py enrolled all row x) ≡ id_of row)
  unfolding diff_by_id
  identified-cases row x = elim (Option-cases (by_external_id x enrolled)) [
    | inr (k, here) ↦ inl (rw (diff_by_id, here) refl)
    | inl not_here ↦ elim (Option-cases (by_external_id x all)) [
      | inr (k, there) ↦ inr (rw (diff_by_id, not_here, there) (truthy_id row))
      | inl nowhere ↦ rw (diff_by_id, not_here, nowhere) (named-cases row)
    ]
  ]

  -- A row that writes an external id has one that no row before it has.
  one-cases :
      (seen : List String) (row : ParsedRow)
      → (written_id (diff_one py enrolled all seen row) ≡ none)
        ⊎ ((x : String) × (id_of row ≡ some x)
            × (has_text x seen ≡ false)
            × (written_id (diff_one py enrolled all seen row) ≡ some x))
  unfolding diff_one
  one-cases seen row = elim (Option-cases (id_of row)) [
    | inl without ↦ inl (elim (named-cases row) [
      | inl none_ ↦ rw (diff_one, without) none_
      | inr same ↦ rw (diff_one, without) (same ∙ without)
    ])
    | inr (x, is) ↦ elim (Bool-cases (has_text x seen)) [
      | inl again ↦ inl (rw (diff_one, is, again) refl)
      | inr first ↦ elim (identified-cases row x) [
        | inl none_ ↦ inl (rw (diff_one, is, first) none_)
        | inr same ↦ inr (x, is, first, rw (diff_one, is, first) (same ∙ is))
      ]
    ]
  ]

  has-see :
      (x : String) (row : ParsedRow) (seen : List String)
      → has_text x seen ≡ true
      → has_text x (see row seen) ≡ true
  has-see x row seen h = elim (Option-cases (id_of row)) [
    | inl without ↦ rw (see, without) h
    | inr (y, is) ↦ elim (Bool-cases (str_eq y x)) [
      | inl same ↦ rw (see, is, same) refl
      | inr apart ↦ rw (see, is, apart) h
    ]
  ]

  -- An external id that is seen is not written any more.
  seen_not_written :
      (x : String) (seen : List String) (rows : List ParsedRow)
      → has_text x seen ≡ true
      → has_text x (written_ids (diff_all py enrolled all seen rows)) ≡ false
  seen_not_written x seen [] h = refl
  seen_not_written x seen (row ∷ rows) h =
      let rest = seen_not_written x (see row seen) rows (has-see x row seen h) in
      elim (one-cases seen row) [
        | inl none_ ↦ rw none_ rest
        | inr (y, is, first, wrote) ↦ elim (Bool-cases (str_eq y x)) [
          | inl same ↦ absurd (
              let e = (str_eq_iff y x).0 same in
              let twice : has_text x seen ≡ false = subst (λ z. has_text z seen ≡ false) e first in
              cc)
          | inr apart ↦ rw (wrote, apart) rest
        ]
      ]

  written-AreDistinct :
      (seen : List String) (rows : List ParsedRow)
      → AreDistinct (written_ids (diff_all py enrolled all seen rows))
  written-AreDistinct seen [] = tt
  written-AreDistinct seen (row ∷ rows) =
      let rest = written-AreDistinct (see row seen) rows in
      elim (one-cases seen row) [
        | inl none_ ↦ rw none_ rest
        | inr (y, is, first, wrote) ↦
            let now_seen : has_text y (see row seen) ≡ true =
              rw (see, is, (str_eq_iff y y).1 refl) refl in
            rw wrote (seen_not_written y (see row seen) rows now_seen, rest)
      ]

-- The rows of an import that create or enroll a student have different external ids, when they have one:
-- no external id is written twice by one file.
pub diff-AreDistinct :
    (py : Text) (roster : Roster) (t c : ℕ) (rows : List ParsedRow) (diff : List DiffRow)
    → build_import_diff py roster t c rows ≡ ok diff
    → AreDistinct (written_ids diff)
unfolding build_import_diff
diff-AreDistinct py roster t c rows diff h =
    let (checked, owned, rest) = >>=-eq-ok (assert_class_owned_by roster c t) _ h in
    let made : diff ≡ diff_all py (enrolled_students roster c t) (students_of roster t) [] rows =
      cc in
    rw made (written-AreDistinct py (enrolled_students roster c t) (students_of roster t) [] rows)
