-- ===== src/Roster/Rows.antt =====
-- What the parser makes of the data rows.
use rubric_grading_engine.Prelude.{
  ℕ, suc, ◌+◌, ◌≤◌, ◌<◌, String, ◌≡◌, refl, ap, ◌∙◌, ◌⊎◌, inl, inr, false, not, ◌&&◌, Option, some,
  List, [], ◌∷◌, arith, ltb, Bool-cases, length, All, All-append, length-append,
}
use rubric_grading_engine.Prelude.Results.{
  Error, validation_error, Result, ok, err, ◌>>=◌, Result-cases,
}
use rubric_grading_engine.Parsing.Text.{len, is_empty}
use rubric_grading_engine.Roster.{
  Sheet, Text, ParsedRow, DiffRow, CsvParseResult, max_length, column_of, cell, none_if_empty,
  parse_row, add_row, parse_rows, no_rows, parse_csv_roster,
}

-- A row within the limits: a name, and an external id that is not empty when there is one.
abbrev pub IsValidRow : ParsedRow → Type 0
IsValidRow r =
    (is_empty r.full_name ≡ false)
    × (len r.full_name ≤ max_length)
    × ((x : String) → r.external_id ≡ some x → (is_empty x ≡ false) × (len x ≤ max_length))

-- What the loop did to a result in `n` rows.
pub record Parsed (n : ℕ) (before after : CsvParseResult) : Type 0 where
  pub rows : length after.rows + length after.errors ≡ length before.rows + length before.errors + n
  pub valid : All IsValidRow before.rows → All IsValidRow after.rows

id_limit :
    (external_id x : String)
    → (not (is_empty external_id) && ltb max_length (len external_id)) ≡ false
    → none_if_empty external_id ≡ some x
    → (is_empty x ≡ false) × (len x ≤ max_length)
id_limit external_id x short h = elim (Bool-cases (is_empty external_id)) [
  | inl empty ↦ absurd (ground (arith, h, empty))
  | inr full ↦
      let e : external_id ≡ x = ground (arith, h, full) in
      rw (← e) (full, ground (arith, short, full))
]

parse-row_IsValidRow :
    (n : ℕ) (name external_id : String) (r : ParsedRow)
    → parse_row n name external_id ≡ inr r
    → IsValidRow r
unfolding parse_row
parse-row_IsValidRow n name external_id r h = elim (Bool-cases (is_empty name)) [
  | inl empty ↦ absurd (ground (arith, h, empty))
  | inr named ↦ elim (Bool-cases (ltb max_length (len name))) [
    | inl long ↦ absurd (ground (arith, h, named, long))
    | inr short ↦
        elim (Bool-cases (not (is_empty external_id) && ltb max_length (len external_id))) [
          | inl long_id ↦ absurd (ground (arith, h, named, short, long_id))
          | inr short_id ↦
              let made : r ≡ record {
                row_number = n;
                full_name = name;
                external_id = none_if_empty external_id;
              } =
                ground (arith, h, named, short, short_id) in
              rw made (named, ground (arith, short), λ x is. id_limit external_id x short_id is)
        ]
  ]
]

parse-row_cases :
    (outcome : DiffRow ⊎ ParsedRow)
    → ((e : DiffRow) × (outcome ≡ inl e)) ⊎ ((r : ParsedRow) × (outcome ≡ inr r))
parse-row_cases (inl e) = inl (e, refl)
parse-row_cases (inr r) = inr (r, refl)

add-row_Parsed :
    (n : ℕ) (name external_id : String) (result : CsvParseResult)
    → Parsed 1 result (add_row (parse_row n name external_id) result)
add-row_Parsed n name external_id result = elim (parse-row_cases (parse_row n name external_id)) [
  | inl (e, is) ↦
      rw is (record { rows = omega (arith, length-append result.errors (e ∷ [])); valid = λ h. h })
  | inr (r, is) ↦ rw is (record {
    rows = omega (arith, length-append result.rows (r ∷ []));
    valid = λ h.
        All-append IsValidRow result.rows (r ∷ []) h
          (parse-row_IsValidRow n name external_id r is, tt);
  })
]

-- The loop over rows, `n` of which are done: within the limit it ends as the reading does.
rows-Parsed :
    (max_rows : ℕ) (name_column : String) (id_column : Option String) (n : ℕ)
    (result : CsvParseResult) (rows : List (String → Option String)) (ending : Result (Unit {0}))
    → n ≤ max_rows
    → ((n + length rows ≤ max_rows)
        × ((result' : CsvParseResult) × (parse_rows max_rows name_column id_column n result rows
                ending
              ≡ (ending >>= λ _. ok result'))
            × Parsed (length rows) result result'))
      ⊎ ((max_rows < n + length rows)
          × (parse_rows max_rows name_column id_column n result rows ending
              ≡ err (validation_error "file")))
rows-Parsed max_rows name_column id_column n result [] ending h =
    inl (omega (arith, h), (result, refl, record { rows = omega arith; valid = λ v. v }))
rows-Parsed max_rows name_column id_column n result (row ∷ rows) ending h =
    let name = cell row (some name_column) in
    let external_id = cell row id_column in
    let next = add_row (parse_row (suc n) name external_id) result in
    let one = add-row_Parsed (suc n) name external_id result in
    elim (Bool-cases (ltb max_rows (suc n))) [
      | inl over ↦ inr (ground (arith, over), rw over refl)
      | inr within ↦
          elim (rows-Parsed max_rows name_column id_column (suc n) next rows ending
            (ground (arith, within))) [
              | inl (fits, (result', eq, more)) ↦ inl (
                omega (arith, fits),
                (
                  result',
                  rw within eq,
                  record {
                    rows = omega (arith, one.rows, more.rows);
                    valid = λ v. more.valid (one.valid v);
                  },
                ),
              )
              | inr (over, eq) ↦ inr (omega (arith, over), rw within eq)
            ]
    ]

-- A file that decodes, with a header that has the column of the names. Above the limit of rows the
-- parser refuses the file. Within it there are two ways. When the csv module reads the file to its end,
-- the parser returns, every data row is either parsed or reported as an error, and every parsed row has
-- a name of at most 255 characters and an external id, if any, of 1 to 255. When the csv module raises
-- after the rows, the parser raises the same.
pub parse-csv_roster_cases :
    (py : Text) (max_rows : ℕ) (sheet : Sheet) (headers : List String) (name_column : String)
    → sheet.fieldnames ≡ ok (some headers)
    → column_of py "full_name" headers ≡ some name_column
    → ((length sheet.rows ≤ max_rows)
        × (((result : CsvParseResult) × (sheet.ending ≡ ok tt)
              × (parse_csv_roster py max_rows (some sheet) ≡ ok result)
              × (length result.rows + length result.errors ≡ length sheet.rows)
              × All IsValidRow result.rows)
            ⊎ ((raised : Error) × (sheet.ending ≡ err raised)
                × (parse_csv_roster py max_rows (some sheet) ≡ err raised))))
      ⊎ ((max_rows < length sheet.rows)
          × (parse_csv_roster py max_rows (some sheet) ≡ err (validation_error "file")))
unfolding parse_csv_roster
parse-csv_roster_cases py max_rows sheet headers name_column has_header has_column =
    elim (rows-Parsed max_rows name_column (column_of py "external_id" headers) 0 no_rows sheet.rows
      sheet.ending (omega arith)) [
        | inl (fits, (result, eq, parsed)) ↦ inl (
          omega (arith, fits),
          elim (Result-cases sheet.ending) [
            | inl (done, ends) ↦ inl (
              result,
              ends,
              rw (parse_csv_roster, has_header, has_column)
                  (eq ∙ ap (λ e. e >>= λ _. ok result) ends),
              omega (arith, parsed.rows),
              parsed.valid tt,
            )
            | inr (raised, ends) ↦ inr (
              raised,
              ends,
              rw (parse_csv_roster, has_header, has_column)
                  (eq ∙ ap (λ e. e >>= λ _. ok result) ends),
            )
          ],
        )
        | inr (over, eq) ↦
            inr (omega (arith, over), rw (parse_csv_roster, has_header, has_column) eq)
      ]
