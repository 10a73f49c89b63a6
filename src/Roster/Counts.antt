-- ===== src/Roster/Counts.antt =====
-- The counts that an import reports, and what it adds to the tables.
use rubric_grading_engine.Prelude.{
  ℕ, suc, ◌+◌, String, ◌≡◌, refl, sym, ap, ◌∙◌, ◌⊎◌, inl, inr, Bool, not, none, List, [], ◌∷◌,
  arith, ◌==◌, Option-cases, length, length-append,
}
use rubric_grading_engine.Prelude.Results.{
  validation_error, ok, raise_if, >>=-eq-ok, ok-pair_injective,
}
use rubric_grading_engine.Prelude.Tables.{get_where, length-put}
use rubric_grading_engine.Roster.{
  Text, ParsedRow, ImportRowStatus, new, updated, skipped, error, DiffRow,
}
use rubric_grading_engine.Roster.Commit.{
  RosterStudent, Roster, student_row, assert_class_owned_by, enrolled_students, students_of, see,
  diff_all, build_import_diff, ImportCounts, enroll_existing, apply_row, apply_rows, no_counts,
  commit_roster_import,
}

abbrev pub total : ImportCounts → ℕ
total counts = counts.created + counts.updated + counts.skipped

-- What rows did to the tables and the counts.
pub record Applied (n : ℕ) (roster roster' : Roster) (counts counts' : ImportCounts) : Type 0 where
  pub rows : total counts' ≡ total counts + n
  pub students : length roster'.students + counts.created ≡ length roster.students + counts'.created
  pub enrollments :
      length roster'.enrollments + counts.created + counts.updated
      ≡ length roster.enrollments + counts'.created + counts'.updated

-- What a row is for: a new student, an existing one, or nothing.
status-cases : (s : ImportRowStatus) → (s ≡ new) ⊎ (s ≡ updated) ⊎ (s ≡ skipped) ⊎ (s ≡ error)
status-cases new = inl refl
status-cases updated = inr (inl refl)
status-cases skipped = inr (inr (inl refl))
status-cases error = inr (inr (inr refl))

skipped_Applied :
    (roster : Roster) (counts : ImportCounts)
    → Applied 1 roster roster counts (record counts { skipped = suc counts.skipped })
skipped_Applied roster counts = record { rows = omega arith; students = refl; enrollments = refl }

existing_Applied :
    (t c : ℕ) (row : DiffRow) (roster : Roster) (counts : ImportCounts)
    → let (roster', counts') = enroll_existing t c row roster counts in
      Applied 1 roster roster' counts counts'
unfolding enroll_existing
existing_Applied t c row roster counts = elim (Option-cases row.existing_student_id) [
  | inl none_ ↦ rw (enroll_existing, none_) (skipped_Applied roster counts)
  | inr (k, is) ↦ elim (Option-cases (get_where k (λ s. s.teacher_id == t) roster.students)) [
    | inl gone ↦ rw (enroll_existing, is, gone) (skipped_Applied roster counts)
    | inr (s, found) ↦
        let renamed : RosterStudent = record s { full_name = row.full_name } in
        rw (enroll_existing, is, found)
          (record {
            rows = omega arith;
            students = omega (arith, length-put renamed roster.students);
            enrollments = omega (
              arith,
              length-append roster.enrollments
                  (record { class_id = c; student_id = s.id; removed_at = none } ∷ []),
            );
          })
  ]
]

apply-row_Applied :
    (new_id : ℕ → ℕ) (t c : ℕ) (row : DiffRow) (roster : Roster) (counts : ImportCounts)
    → let (roster', counts') = apply_row new_id t c row roster counts in
      Applied 1 roster roster' counts counts'
unfolding apply_row
apply-row_Applied new_id t c row roster counts = elim (status-cases row.status) [
  | inl made ↦
      let id = new_id row.row_number in
      let student : RosterStudent = record {
        id = id;
        teacher_id = t;
        full_name = row.full_name;
        external_id = row.external_id;
      } in
      rw (apply_row, made)
        (record {
          rows = omega arith;
          students = omega (arith, length-append roster.students (student ∷ []));
          enrollments = omega (
            arith,
            length-append roster.enrollments
                (record { class_id = c; student_id = id; removed_at = none } ∷ []),
          );
        })
  | inr (inl existing) ↦ rw (apply_row, existing) (existing_Applied t c row roster counts)
  | inr (inr (inl skip)) ↦ rw (apply_row, skip) (skipped_Applied roster counts)
  | inr (inr (inr bad)) ↦ rw (apply_row, bad) (skipped_Applied roster counts)
]

rows_Applied :
    (new_id : ℕ → ℕ) (t c : ℕ) (rows : List DiffRow) (roster : Roster) (counts : ImportCounts)
    → let (roster', counts') = apply_rows new_id t c rows roster counts in
      Applied (length rows) roster roster' counts counts'
rows_Applied new_id t c [] roster counts = record {
  rows = omega arith;
  students = refl;
  enrollments = refl;
}
rows_Applied new_id t c (row ∷ rows) roster counts =
    let (roster', counts') = apply_row new_id t c row roster counts in
    let one = apply-row_Applied new_id t c row roster counts in
    let rest = rows_Applied new_id t c rows roster' counts' in
    record {
      rows = omega (arith, one.rows, rest.rows);
      students = omega (arith, one.students, rest.students);
      enrollments = omega (arith, one.enrollments, rest.enrollments);
    }

length-diff :
    (py : Text) (enrolled all : List RosterStudent) (seen : List String) (rows : List ParsedRow)
    → length (diff_all py enrolled all seen rows) ≡ length rows
length-diff py enrolled all seen [] = refl
length-diff py enrolled all seen (row ∷ rows) =
    ap suc (length-diff py enrolled all (see row seen) rows)

-- An import that returns accounts for every row of the file: the created, updated and skipped rows are
-- as many as the rows. It adds one student for each created row, and one enrollment for each created
-- and each updated row, and removes none.
pub commit-Applied :
    (py : Text) (new_id : ℕ → ℕ) (accepts : Roster → Bool) (roster roster' : Roster) (t c : ℕ)
    (rows : List ParsedRow) (counts : ImportCounts)
    → commit_roster_import py new_id accepts roster t c rows ≡ ok (roster', counts)
    → (counts.created + counts.updated + counts.skipped ≡ length rows)
      × (length roster'.students ≡ length roster.students + counts.created)
      × (length roster'.enrollments ≡ length roster.enrollments + counts.created + counts.updated)
unfolding commit_roster_import build_import_diff
commit-Applied py new_id accepts roster roster' t c rows counts h =
    let diff = diff_all py (enrolled_students roster c t) (students_of roster t) [] rows in
    let (diff', built, rest) = >>=-eq-ok (build_import_diff py roster t c rows) _ h in
    let (checked, owned, rest') = >>=-eq-ok (assert_class_owned_by roster c t) _ built in
    let same : diff ≡ diff' = cc in
    let (accepted, constraint, end_) =
      >>=-eq-ok
        (raise_if (not (accepts (apply_rows new_id t c diff' roster no_counts).0))
          (validation_error ""))
        _ rest in
    let (table, reported) = ok-pair_injective _ roster' _ counts end_ in
    let applied = rows_Applied new_id t c diff' roster no_counts in
    let count =
      ap length (sym same)
      ∙ length-diff py (enrolled_students roster c t) (students_of roster t) [] rows in
    rw (table, reported)
      (
        omega (arith, applied.rows, count),
        omega (arith, applied.students),
        omega (arith, applied.enrollments),
      )
