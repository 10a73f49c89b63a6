-- ===== src/Examples/Names.antt =====
-- The theorems on matching names, with scores that only know equal texts.
use rubric_grading_engine.Prelude.{
  ℕ, String, ◌≡◌, none, some, List, [], ◌∷◌, map, arith, if◌then◌else◌, select,
}
use rubric_grading_engine.Prelude.Int.{pos}
use rubric_grading_engine.Prelude.Results.{ok}
use rubric_grading_engine.Prelude.Texts.{str_eq}
use rubric_grading_engine.Parsing.Text.{strip}
use rubric_grading_engine.Matching.{Fuzz, Student, match_student}
use rubric_grading_engine.Matching.Candidates.{
  upload_of, reaches, outcome_of, match-student_outcome,
}
use rubric_grading_engine.Skills.{Mapping, normalize_criterion_name}
use rubric_grading_engine.Skills.Dimensions.{IsDimension, normalize-IsDimension}

abbrev equal : String → String → ℕ
equal a b = if str_eq a b then 100 else 40

abbrev fuzz : Fuzz
fuzz = record {
  unit = 1;
  ratio = equal;
  token_sort_ratio = equal;
  partial_ratio = equal;
  lower = λ s. s;
  stem = λ s. s;
}

abbrev roster : List Student
roster = (9, "ada byron") ∷ (10, "bob hall") ∷ []

match-student_outcome_example :
    let r = match_student fuzz roster "ada_byron" none (some "An essay") in
    (r.status, r.student_id, r.match_count)
    ≡ outcome_of (
        map
          (λ s. s.0)
          (select (reaches fuzz (upload_of fuzz "ada_byron" none (some "An essay"))) roster))
match-student_outcome_example = match-student_outcome fuzz roster "ada_byron" none (some "An essay")

abbrev mapping : Mapping
mapping = ("thesis", "claim" ∷ []) ∷ ("evidence", "proof" ∷ []) ∷ []

normalize-IsDimension_example :
    (answer : String) × (normalize_criterion_name fuzz (pos 80) mapping " proof " ≡ ok answer)
    × IsDimension fuzz (pos 80) mapping (strip " proof ") answer
normalize-IsDimension_example =
    normalize-IsDimension fuzz (pos 80) mapping " proof " (omega arith, omega arith)
