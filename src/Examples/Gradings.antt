-- ===== src/Examples/Gradings.antt =====
-- The theorems on the grading of an essay and on its task, with the model's answer of
-- Examples/Answers.
use rubric_grading_engine.Prelude.{
  ℕ, ◌+◌, ◌≡◌, refl, ◌⊎◌, true, false, none, some, List, [], ◌∷◌, ◌++◌, map, arith, length, All,
}
use rubric_grading_engine.Prelude.Int.{pos, ◌+ℤ◌, ◌≤ℤ◌}
use rubric_grading_engine.Prelude.Results.{
  Error, conflict, grading_in_progress, llm_error, Result, ok, err,
}
use rubric_grading_engine.Prelude.Tables.{get, get_where}
use rubric_grading_engine.Models.{
  EssayStatus, Grade, CriterionScore, balanced, low, class_row, assignment_row, essay_row,
  version_row,
}
use rubric_grading_engine.Models.Store.{
  Db, owner_of_assignment, owner_of_essay, assignment_of_essay, load_essay_tenant_scoped,
}
use rubric_grading_engine.Parsing.Text.{is_empty, strip, len}
use rubric_grading_engine.Parsing.Json.{lookup, to_int, to_text, text_or_empty, is_truthy}
use rubric_grading_engine.Parsing.Grading.{
  CriterionInfo, ParsedGradingResponse, store, store_item, collect, find_item, clamp_score,
  is_short, level_of, confidence_of, feedback_of, parsed_score, parse_criterion, parse_criteria,
  decode, parse_grading_response,
}
use rubric_grading_engine.LanguageModel.{chat_from, chat_with_retry, call_grading}
use rubric_grading_engine.Grades.{sum_final, latest, latest_version, grade_of_version}
use rubric_grading_engine.Grading.{
  Uuids, NewIds, Job, prepare, strictness_of, check_queued, grade_essay, write_grade, rows_of,
  score_row_of, grade_of, derive_overall_confidence, info_of,
}
use rubric_grading_engine.Grading.Writes.{NotOf, Shows, Written, LeftOver}
use rubric_grading_engine.Grading.Phases.{grade_essay-cases}
use rubric_grading_engine.Grading.Bounds.{graded_in_range}
use rubric_grading_engine.Batch.{World, Task, retry_essay_grading}
use rubric_grading_engine.Tasks.{
  Delivery, retried, raised, clause_of, llm_clause, power_of_two, grade_task,
}
use rubric_grading_engine.Tasks.Stuck.{retried_is_stuck}
use rubric_grading_engine.Examples.Data.{db, essay, version, assignment, criterion}
use rubric_grading_engine.Examples.Answers.{python, replies}

abbrev uuids : Uuids
uuids = record { show = λ n. "30"; read = λ s. some 30 }

abbrev new_ids : NewIds
new_ids = record { grade = 50; score = λ i. 60 + i }

abbrev job : Job
job = record { essay = essay; version = version; assignment = assignment; level = balanced }

preparing : prepare db 3 7 "balanced" ≡ ok job
unfolding prepare strictness_of load_essay_tenant_scoped owner_of_essay assignment_of_essay
    owner_of_assignment get_where get latest_version latest check_queued
preparing = refl

abbrev call : List CriterionInfo → Result ParsedGradingResponse
call = call_grading python 3 replies replies

abbrev graded_run : Result Grade × Db
graded_run = grade_essay uuids new_ids 2000 "grading-v2" call db 3 7 "balanced"

fresh : All (NotOf 50) db.criterion_scores
fresh = (ground arith, tt)

grade_essay-cases_example :
    ((grade : Grade) × (answer : ParsedGradingResponse) × (graded_run.0 ≡ ok grade)
      × (call (map (info_of uuids) (criterion ∷ [])) ≡ ok answer)
      × Written uuids new_ids db graded_run.1 3 job answer grade)
    ⊎ ((x : Error) × (graded_run.0 ≡ err x) × LeftOver db graded_run.1 3 job x)
grade_essay-cases_example =
    grade_essay-cases uuids new_ids 2000 "grading-v2" call db 3 7 "balanced" graded_run.0
      graded_run.1 refl job fresh preparing

abbrev new_grade : Grade
new_grade = record {
  id = 50;
  essay_version_id = 4;
  total_score = pos 10;
  max_possible_score = pos 10;
  summary_feedback = "Good work";
  summary_feedback_edited = none;
  strictness = balanced;
  prompt_version = "grading-v2";
  is_locked = false;
  locked_at = none;
  overall_confidence = some low;
  created_at = 2000;
}

graded_is : graded_run ≡ (ok new_grade, graded_run.1)
unfolding grade_essay prepare strictness_of load_essay_tenant_scoped owner_of_essay
    assignment_of_essay owner_of_assignment get_where get latest_version latest check_queued
    write_grade grade_of_version rows_of score_row_of grade_of derive_overall_confidence
    call_grading chat_with_retry chat_from parse_grading_response decode collect store_item store
    find_item parse_criteria parse_criterion clamp_score to_int lookup parsed_score text_or_empty
    to_text is_truthy is_empty is_short strip len confidence_of level_of feedback_of ◌+ℤ◌
graded_is = refl

graded_in_range_example :
    (pos 0 ≤ℤ pos 10)
    × (pos 10 ≤ℤ pos 10)
    × (pos 10 ≡ sum_final 50 graded_run.1.criterion_scores)
    × ((rows : List CriterionScore) × (graded_run.1.criterion_scores ≡ db.criterion_scores ++ rows)
        × (length rows ≡ 1))
graded_in_range_example =
    graded_in_range uuids new_ids 2000 "grading-v2" python 3 replies replies db 3 7 "balanced" job
      new_grade graded_run.1 fresh preparing ((omega arith, omega arith), tt) graded_is

abbrev task : Task
task = record { essay_id = 3; teacher_id = 7; strictness = "balanced"; assignment_id = some 2 }

abbrev world : World
world = record { db = db; redis = λ a. none; queue = [] }

abbrev delivery : ℕ → Delivery
delivery n = record { retries = n; redis_at_start = true; redis_at_end = true }

abbrev no_answer : List CriterionInfo → Result ParsedGradingResponse
no_answer criteria = err llm_error

llm : clause_of llm_error ≡ llm_clause
unfolding clause_of
llm = refl

retried_is_stuck_example :
    let (ended, w₁) =
      grade_task (grade_essay uuids new_ids 2000 "grading-v2" no_answer) (delivery 1) task world in
    let (ended', w₂) =
      grade_task (grade_essay uuids new_ids 2000 "grading-v2" call) (delivery 2) task w₁ in
    (ended ≡ retried (power_of_two 1))
    × (ended' ≡ raised grading_in_progress)
    × Shows w₂.db 3 essay EssayStatus.grading
    × ((retry_essay_grading true none w₂ 3 7 "balanced").0 ≡ err conflict)
retried_is_stuck_example =
    retried_is_stuck uuids new_ids 2000 "grading-v2" no_answer (delivery 1) task world job llm_error
      preparing refl call (delivery 2) true none "balanced" llm (omega arith)
