-- ===== src/Examples/Imports.antt =====
-- The theorems on roster imports, for a file of three rows.
use rubric_grading_engine.Prelude.{
  ℕ, ◌+◌, ◌≤◌, ◌<◌, String, ◌≡◌, refl, ◌⊎◌, true, Option, some, List, [], ◌∷◌, if◌then◌else◌,
  length, All,
}
use rubric_grading_engine.Prelude.Results.{Error, validation_error, ok, err}
use rubric_grading_engine.Prelude.Tables.{get}
use rubric_grading_engine.Prelude.Texts.{str_eq, AreDistinct}
use rubric_grading_engine.Parsing.Text.{strip, lstrip, rstrip, is_space, is_empty}
use rubric_grading_engine.Roster.{Sheet, Text, ParsedRow, CsvParseResult, DiffRow, parse_csv_roster}
use rubric_grading_engine.Roster.Commit.{
  Roster, student_row, assert_class_owned_by, enrolled_students, diff_all, students_of,
  build_import_diff, ImportCounts, apply_rows, no_counts, commit_roster_import,
}
use rubric_grading_engine.Roster.Rows.{IsValidRow, parse-csv_roster_cases}
use rubric_grading_engine.Roster.Batch.{written_ids, diff-AreDistinct}
use rubric_grading_engine.Roster.Counts.{commit-Applied}

abbrev py : Text
py = record { lower = λ s. s; ratio = λ a b. if str_eq a b then 100 else 0 }

abbrev headers : List String
headers = "full_name" ∷ "external_id" ∷ []

abbrev cells : String → String → String → Option String
cells name external_id column = if str_eq column "full_name" then some name else some external_id

abbrev sheet : Sheet
sheet = record {
  fieldnames = ok (some headers);
  rows = cells "Ada" "1" ∷ cells "" "2" ∷ cells "Bob" "" ∷ [];
  ending = ok tt;
}

parse-csv_roster_cases_example :
    ((3 ≤ 200)
      × (((result : CsvParseResult) × (sheet.ending ≡ ok tt)
            × (parse_csv_roster py 200 (some sheet) ≡ ok result)
            × (length result.rows + length result.errors ≡ 3)
            × All IsValidRow result.rows)
          ⊎ ((raised : Error) × (sheet.ending ≡ err raised)
              × (parse_csv_roster py 200 (some sheet) ≡ err raised))))
    ⊎ ((200 < 3) × (parse_csv_roster py 200 (some sheet) ≡ err (validation_error "file")))
unfolding strip lstrip rstrip is_space is_empty
parse-csv_roster_cases_example = parse-csv_roster_cases py 200 sheet headers "full_name" refl refl

abbrev row : ℕ → String → String → ParsedRow
row n name external_id = record { row_number = n; full_name = name; external_id = some external_id }

abbrev rows : List ParsedRow
rows = row 1 "Ada" "1" ∷ row 2 "Bob" "2" ∷ row 3 "Ann" "1" ∷ []

abbrev roster : Roster
roster = record {
  classes = record { id = 1; teacher_id = 7 } ∷ [];
  students = record { id = 9; teacher_id = 7; full_name = "Ada"; external_id = some "1" } ∷ [];
  enrollments = [];
}

abbrev diff : List DiffRow
diff = diff_all py (enrolled_students roster 1 7) (students_of roster 7) [] rows

abbrev imported : Roster × ImportCounts
imported = apply_rows (λ n. 100 + n) 7 1 diff roster no_counts

diff-AreDistinct_example : AreDistinct (written_ids diff)
unfolding build_import_diff assert_class_owned_by get
diff-AreDistinct_example = diff-AreDistinct py roster 7 1 rows diff refl

commit-Applied_example :
    (imported.1.created + imported.1.updated + imported.1.skipped ≡ 3)
    × (length imported.0.students ≡ 1 + imported.1.created)
    × (length imported.0.enrollments ≡ 0 + imported.1.created + imported.1.updated)
unfolding commit_roster_import build_import_diff assert_class_owned_by get
commit-Applied_example =
    commit-Applied py (λ n. 100 + n) (λ _. true) roster imported.0 7 1 rows imported.1 refl
