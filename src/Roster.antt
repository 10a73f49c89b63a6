-- ===== src/Roster.antt =====
-- backend/app/services/roster_import.py: students from a CSV file. The decoded file comes from the csv
-- module, and similarity from difflib; both are parameters.
pub mod Commit
pub mod Rows
pub mod Batch
pub mod Counts
use rubric_grading_engine.Prelude.{
  ℕ, suc, String, ◌⊎◌, inl, inr, not, ◌&&◌, Option, none, some, List, [], ◌∷◌, ◌++◌, ltb,
  if◌then◌else◌,
}
use rubric_grading_engine.Prelude.Results.{validation_error, Result, ok, err, ◌>>=◌, ◌>>◌, or_raise}
use rubric_grading_engine.Prelude.Texts.{str_eq}
use rubric_grading_engine.Parsing.Text.{strip, len, is_empty}
use rubric_grading_engine.Matching.{take_chars}
use rubric_grading_engine.Models.{class_row}

-- What the csv module reads of a decoded file: the header, if there is one, the data rows, and how
-- the reading of a further row ends: the file is read, or the module raises its error, as it does for a
-- carriage return in a field without quotes or for a field that is too long. The header can raise too.
pub record Sheet : Type 0 where
  pub fieldnames : Result (Option (List String))
  pub rows : List (String → Option String)
  pub ending : Result (Unit {0})

-- What the service calls of `str` and difflib: lower case, and a ratio in hundredths.
pub record Text : Type 0 where
  pub lower : String → String
  pub ratio : String → String → ℕ

pub record ParsedRow : Type 0 where
  pub row_number : ℕ
  pub full_name : String
  pub external_id : Option String

pub data ImportRowStatus : Type 0 where
  new updated skipped error : ImportRowStatus

-- Messages are left out.
pub record DiffRow : Type 0 where
  pub row_number : ℕ
  pub full_name : String
  pub external_id : Option String
  pub status : ImportRowStatus
  pub existing_student_id : Option ℕ

pub record CsvParseResult : Type 0 where
  pub rows : List ParsedRow
  pub errors : List DiffRow

abbrev pub max_length : ℕ
max_length = 255

-- The column whose trimmed and lowered header is the name; of several, the last.
abbrev pub column_of : Text → String → List String → Option String
column_of py name [] = none
column_of py name (h ∷ headers) = elim (column_of py name headers) [
  | some later ↦ some later
  | none ↦ if not (is_empty h) && str_eq (py.lower (strip h)) name then some h else none
]

abbrev pub or_empty : Option String → String
or_empty none = ""
or_empty (some s) = s

-- `(row.get(column) or "").strip()`, or the empty text without a column.
unfoldable pub cell : (String → Option String) → Option String → String
cell row none = ""
cell row (some column) = strip (or_empty (row column))

abbrev pub error_row : ℕ → String → Option String → DiffRow
error_row n name external_id = record {
  row_number = n;
  full_name = name;
  external_id = external_id;
  status = error;
  existing_student_id = none;
}

abbrev pub none_if_empty : String → Option String
none_if_empty s = if is_empty s then none else some s

-- One data row: an error row, or a parsed one.
unfoldable pub parse_row : ℕ → String → String → DiffRow ⊎ ParsedRow
parse_row n name external_id =
    if is_empty name
    then inl (error_row n "" none)
    else if ltb max_length (len name)
    then inl (error_row n (take_chars max_length name) none)
    else if not (is_empty external_id) && ltb max_length (len external_id)
    then inl (error_row n name (some (take_chars max_length external_id)))
    else inr (record { row_number = n; full_name = name; external_id = none_if_empty external_id })

abbrev pub add_row : DiffRow ⊎ ParsedRow → CsvParseResult → CsvParseResult
add_row (inl e) result = record result { errors = result.errors ++ (e ∷ []) }
add_row (inr r) result = record result { rows = result.rows ++ (r ∷ []) }

-- The loop, after `n` rows.
abbrev pub parse_rows :
    ℕ
    → String
    → Option String
    → ℕ
    → CsvParseResult
    → List (String → Option String)
    → Result (Unit {0})
    → Result CsvParseResult
parse_rows max_rows name_column id_column n result [] ending = ending >>= λ _. ok result
parse_rows max_rows name_column id_column n result (row ∷ rows) ending =
    let parsed = parse_row (suc n) (cell row (some name_column)) (cell row id_column) in
    let rest =
      parse_rows max_rows name_column id_column (suc n) (add_row parsed result) rows ending in
    if ltb max_rows (suc n) then err (validation_error "file") else rest

abbrev pub no_rows : CsvParseResult
no_rows = record { rows = []; errors = [] }

-- A file that is not UTF-8 decodes to nothing.
unfoldable pub parse_csv_roster : Text → ℕ → Option Sheet → Result CsvParseResult
parse_csv_roster py max_rows decoded = do
  sheet ← or_raise decoded (validation_error "file")
  fieldnames ← sheet.fieldnames
  headers ← or_raise fieldnames (validation_error "file")
  name_column ← or_raise (column_of py "full_name" headers) (validation_error "file")
  parse_rows max_rows name_column (column_of py "external_id" headers) 0 no_rows sheet.rows
      sheet.ending
