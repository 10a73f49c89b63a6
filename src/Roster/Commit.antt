-- ===== src/Roster/Commit.antt =====
-- build_import_diff and commit_roster_import.
use rubric_grading_engine.Prelude.{
  ℕ, suc, String, Bool, true, false, not, ◌&&◌, Option, none, some, List, [], ◌∷◌, ◌++◌, leb, ◌==◌,
  if◌then◌else◌, select, any,
}
use rubric_grading_engine.Prelude.Results.{
  not_found, forbidden, validation_error, Result, ok, ◌>>=◌, ◌>>◌, raise_if, or_raise,
}
use rubric_grading_engine.Prelude.Tables.{Row, get, get_where, put}
use rubric_grading_engine.Prelude.Texts.{str_eq, has_text}
use rubric_grading_engine.Parsing.Text.{is_empty}
use rubric_grading_engine.Models.{Class, class_row}
use rubric_grading_engine.Roster.{
  Text, ParsedRow, ImportRowStatus, new, updated, skipped, error, DiffRow,
}

pub record RosterStudent : Type 0 where
  pub id : ℕ
  pub teacher_id : ℕ
  pub full_name : String
  pub external_id : Option String

pub record Enrollment : Type 0 where
  pub class_id : ℕ
  pub student_id : ℕ
  pub removed_at : Option ℕ

instance abbrev pub student_row : Row RosterStudent
student_row = record { key = λ x. x.id }

-- The tables of an import.
pub record Roster : Type 0 where
  pub classes : List Class
  pub students : List RosterStudent
  pub enrollments : List Enrollment

unfoldable pub assert_class_owned_by : Roster → ℕ → ℕ → Result (Unit {0})
assert_class_owned_by roster c t = do
  row ← or_raise (get c roster.classes) not_found
  raise_if (not (row.teacher_id == t)) forbidden

abbrev pub is_active : ℕ → ℕ → Enrollment → Bool
is_active c s e =
    e.class_id == c && e.student_id == s && elim e.removed_at [ none ↦ true | some _ ↦ false ]

-- The teacher's students that are enrolled in the class.
unfoldable pub enrolled_students : Roster → ℕ → ℕ → List RosterStudent
enrolled_students roster c t =
    select (λ s. s.teacher_id == t && any (is_active c s.id) roster.enrollments) roster.students

abbrev pub students_of : Roster → ℕ → List RosterStudent
students_of roster t = select (λ s. s.teacher_id == t) roster.students

-- `{s.external_id: s.id for s in students if s.external_id}` at a key: the last such student's id.
abbrev pub by_external_id : String → List RosterStudent → Option ℕ
by_external_id x [] = none
by_external_id x (s ∷ students) = elim (by_external_id x students) [
  | some later ↦ some later
  | none ↦ elim s.external_id [
    | none ↦ none
    | some y ↦ if not (is_empty y) && str_eq y x then some s.id else none
  ]
]

unfoldable pub fuzzy_name_match : Text → String → List RosterStudent → Bool
fuzzy_name_match py name enrolled =
    any (λ (s : RosterStudent). leb 85 (py.ratio (py.lower name) (py.lower s.full_name))) enrolled

abbrev pub diff_row : ParsedRow → ImportRowStatus → Option ℕ → DiffRow
diff_row row status existing = record {
  row_number = row.row_number;
  full_name = row.full_name;
  external_id = row.external_id;
  status = status;
  existing_student_id = existing;
}

-- A row without an external id: only its name is compared.
unfoldable pub diff_by_name : Text → List RosterStudent → ParsedRow → DiffRow
diff_by_name py enrolled row =
    if fuzzy_name_match py row.full_name enrolled
    then diff_row row skipped none
    else diff_row row new none

-- A row with an external id that no earlier row has.
unfoldable pub diff_by_id :
    Text → List RosterStudent → List RosterStudent → ParsedRow → String → DiffRow
diff_by_id py enrolled all row x = elim (by_external_id x enrolled) [
  | some k ↦ diff_row row skipped (some k)
  | none ↦ elim (by_external_id x all) [
    | some k ↦ diff_row row updated (some k)
    | none ↦ diff_by_name py enrolled row
  ]
]

-- `row.external_id`, when it is true.
abbrev pub id_of : ParsedRow → Option String
id_of row = elim row.external_id [ none ↦ none | some x ↦ if is_empty x then none else some x ]

-- The row's entry, given the external ids of the rows before.
unfoldable pub diff_one :
    Text → List RosterStudent → List RosterStudent → List String → ParsedRow → DiffRow
diff_one py enrolled all seen row = elim (id_of row) [
  | none ↦ diff_by_name py enrolled row
  | some x ↦ if has_text x seen then diff_row row skipped none else diff_by_id py enrolled all row x
]

abbrev pub see : ParsedRow → List String → List String
see row seen = elim (id_of row) [ none ↦ seen | some x ↦ x ∷ seen ]

abbrev pub diff_all :
    Text → List RosterStudent → List RosterStudent → List String → List ParsedRow → List DiffRow
diff_all py enrolled all seen [] = []
diff_all py enrolled all seen (row ∷ rows) =
    diff_one py enrolled all seen row ∷ diff_all py enrolled all (see row seen) rows

-- The lookup across classes loads only the students whose external id is in the file; at the ids of the
-- rows it reads as one over all the teacher's students.
unfoldable pub build_import_diff : Text → Roster → ℕ → ℕ → List ParsedRow → Result (List DiffRow)
build_import_diff py roster t c rows = do
  assert_class_owned_by roster c t
  ok (diff_all py (enrolled_students roster c t) (students_of roster t) [] rows)

-- The counts of created, updated and skipped rows.
pub record ImportCounts : Type 0 where
  pub created : ℕ
  pub updated : ℕ
  pub skipped : ℕ

abbrev pub enroll : ℕ → ℕ → Roster → Roster
enroll c s roster = record roster {
  enrollments =
      roster.enrollments ++ (record { class_id = c; student_id = s; removed_at = none } ∷ []);
}

abbrev pub skip : ImportCounts → ImportCounts
skip counts = record counts { skipped = suc counts.skipped }

abbrev pub create_student : ℕ → ℕ → ℕ → DiffRow → Roster → Roster
create_student id t c row roster = enroll c id (record roster {
  students =
      roster.students
      ++ (record {
        id = id;
        teacher_id = t;
        full_name = row.full_name;
        external_id = row.external_id;
      }
          ∷ []);
})

-- An existing student of the teacher: the name of the file, and the enrollment.
unfoldable pub enroll_existing : ℕ → ℕ → DiffRow → Roster → ImportCounts → Roster × ImportCounts
enroll_existing t c row roster counts = elim row.existing_student_id [
  | none ↦ (roster, skip counts)
  | some k ↦ elim (get_where k (λ s. s.teacher_id == t) roster.students) [
    | none ↦ (roster, skip counts)
    | some s ↦
        let renamed : RosterStudent = record s { full_name = row.full_name } in
        (
          enroll c s.id (record roster { students = put renamed roster.students }),
          record counts { updated = suc counts.updated },
        )
  ]
]

-- One row of the diff; the id of a new student is drawn for the row.
unfoldable pub apply_row : (ℕ → ℕ) → ℕ → ℕ → DiffRow → Roster → ImportCounts → Roster × ImportCounts
apply_row new_id t c row roster counts = elim row.status [
  | new ↦ (
    create_student (new_id row.row_number) t c row roster,
    record counts { created = suc counts.created },
  )
  | updated ↦ enroll_existing t c row roster counts
  | skipped ↦ (roster, skip counts)
  | error ↦ (roster, skip counts)
]

abbrev pub apply_rows :
    (ℕ → ℕ) → ℕ → ℕ → List DiffRow → Roster → ImportCounts → Roster × ImportCounts
apply_rows new_id t c [] roster counts = (roster, counts)
apply_rows new_id t c (row ∷ rows) roster counts =
    let (roster', counts') = apply_row new_id t c row roster counts in
    apply_rows new_id t c rows roster' counts'

abbrev pub no_counts : ImportCounts
no_counts = record { created = 0; updated = 0; skipped = 0 }

-- The database accepts the tables at the commit unless a constraint is broken by then.
unfoldable pub commit_roster_import :
    Text
    → (ℕ → ℕ)
    → (Roster → Bool)
    → Roster
    → ℕ
    → ℕ
    → List ParsedRow
    → Result (Roster × ImportCounts)
commit_roster_import py new_id accepts roster t c rows = do
  diff ← build_import_diff py roster t c rows
  let written = apply_rows new_id t c diff roster no_counts
  raise_if (not (accepts written.0)) (validation_error "")
  ok written
