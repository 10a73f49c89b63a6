-- ===== src/Grading.antt =====
-- backend/app/services/grading.py: grading one essay. The service commits twice, so its state comes
-- back beside an error too. The language model's answer is computed by `call` from the criteria
-- (LanguageModel.call_grading), and the new rows' ids and the UUID conversions are parameters. The
-- revision comparison that follows a resubmission's commit, and never raises, is left out.
pub mod Confidence
pub mod Rows
pub mod Writes
pub mod Phases
pub mod Bounds
use text.Mathlib.Text.{◌==◌ as str_eq}
use rubric_grading_engine.Prelude.{
  ℕ, ◌+◌, String, ◌≡◌, Bool, true, false, Option, none, some, List, ◌∷◌, ◌++◌, map, if◌then◌else◌,
  any, [],
}
use rubric_grading_engine.Prelude.Int.{ℤ, pos, sum_ℤ}
use rubric_grading_engine.Prelude.Results.{
  not_found, conflict, grading_in_progress, value_error, validation_error, Result, ok, err,
  or_raise, ◌>>=◌, ◌>>◌,
}
use rubric_grading_engine.Prelude.Tables.{get_where, put}
use rubric_grading_engine.Models.{
  Assignment, SnapshotCriterion, Essay, EssayVersion, EssayStatus, queued, graded, Grade,
  CriterionScore, AuditLog, EntityType, score_clamped, StrictnessLevel, lenient, balanced, strict,
  ConfidenceLevel, high, medium, low, essay_row, assignment_row,
}
use rubric_grading_engine.Models.Store.{Db, load_essay_tenant_scoped, is_owner, owner_of_assignment}
use rubric_grading_engine.Parsing.Grading.{
  CriterionInfo, ParsedCriterionScore, ParsedGradingResponse,
}
use rubric_grading_engine.Parsing.Text.{is_empty}
use rubric_grading_engine.Grades.{latest_version, grade_of_version}

-- `str(uuid)`, and `uuid.UUID(text)`, which fails on a text that is no UUID.
pub record Uuids : Type 0 where
  pub show : ℕ → String
  pub read : String → Option ℕ

-- The ids of the rows that one grading inserts: its grade, and its criterion scores by position.
pub record NewIds : Type 0 where
  pub grade : ℕ
  pub score : ℕ → ℕ

-- `StrictnessLevel(text)`
unfoldable pub strictness_of : String → Result StrictnessLevel
strictness_of text =
    if str_eq text "lenient"
    then ok lenient
    else if str_eq text "balanced"
    then ok balanced
    else if str_eq text "strict"
    then ok strict
    else err (validation_error "strictness")

abbrev pub has_level : (ConfidenceLevel → Bool) → List ParsedCriterionScore → Bool
has_level is = any (λ (p : ParsedCriterionScore). is p.confidence)

abbrev pub is_low : ConfidenceLevel → Bool
is_low low = true
is_low _ = false

abbrev pub is_medium : ConfidenceLevel → Bool
is_medium medium = true
is_medium _ = false

-- `_derive_overall_confidence`
unfoldable pub derive_overall_confidence : List ParsedCriterionScore → ConfidenceLevel
derive_overall_confidence [] = low
derive_overall_confidence (p ∷ scores) =
    if has_level is_low (p ∷ scores)
    then low
    else if has_level is_medium (p ∷ scores)
    then medium
    else high

abbrev pub info_of : Uuids → SnapshotCriterion → CriterionInfo
info_of u c = record {
  criterion_id = u.show c.id;
  min_score = c.min_score;
  max_score = c.max_score;
}

abbrev pub score_or_zero : ParsedCriterionScore → ℤ
score_or_zero p = elim p.score [ none ↦ pos 0 | some n ↦ n ]

-- The row of one parsed score; `uuid.UUID` raises a ValueError on a text that is no UUID.
unfoldable pub score_row_of : Uuids → ℕ → ℕ → ParsedCriterionScore → Result CriterionScore
score_row_of u g id p = do
  criterion ← or_raise (u.read p.criterion_id) value_error
  ok (record {
    id = id;
    grade_id = g;
    rubric_criterion_id = criterion;
    ai_score = score_or_zero p;
    teacher_score = none;
    final_score = score_or_zero p;
    ai_justification = p.justification;
    ai_feedback = if is_empty p.ai_feedback then none else some p.ai_feedback;
    teacher_feedback = none;
    confidence = p.confidence;
  })

-- The audit entry of a clamped score: a system event, with no teacher.
abbrev pub clamp_logs : CriterionScore → ParsedCriterionScore → List AuditLog
clamp_logs row p =
    if p.score_clamped
    then record {
      teacher_id = none;
      entity_type = EntityType.criterion_score;
      entity_id = row.id;
      action = score_clamped row.rubric_criterion_id p.raw_score row.ai_score;
    }
      ∷ []
    else []

-- The loop over the parsed scores: the rows and the audit entries, in order.
unfoldable pub rows_of :
    Uuids → NewIds → ℕ → List ParsedCriterionScore → Result (List CriterionScore × List AuditLog)
unfolding score_row_of
rows_of u ids i [] = ok ([], [])
rows_of u ids i (p ∷ scores) = do
  row ← score_row_of u ids.grade (ids.score i) p
  (rows, logs) ← rows_of u ids (i + 1) scores
  ok (row ∷ rows, clamp_logs row p ++ logs)

unfoldable pub grade_of :
    NewIds
    → ℕ
    → StrictnessLevel
    → String
    → ℕ
    → List SnapshotCriterion
    → ParsedGradingResponse
    → Grade
unfolding derive_overall_confidence
grade_of ids now level prompt v criteria answer = record {
  id = ids.grade;
  essay_version_id = v;
  total_score = sum_ℤ (map score_or_zero answer.criterion_scores);
  max_possible_score = sum_ℤ (map (λ (c : SnapshotCriterion). c.max_score) criteria);
  summary_feedback = answer.summary_feedback;
  summary_feedback_edited = none;
  strictness = level;
  prompt_version = prompt;
  is_locked = false;
  locked_at = none;
  overall_confidence = some (derive_overall_confidence answer.criterion_scores);
  created_at = now;
}

abbrev pub set_status : Db → EssayStatus → Essay → Db
set_status db st e = record db { essays = put (record e { status = st }) db.essays }

-- Only a queued essay is graded.
unfoldable pub check_queued : EssayStatus → Result (Unit {0})
check_queued queued = ok tt
check_queued EssayStatus.grading = err grading_in_progress
check_queued _ = err conflict

-- What is loaded and checked before anything is written.
pub record Job : Type 0 where
  pub essay : Essay
  pub version : EssayVersion
  pub assignment : Assignment
  pub level : StrictnessLevel

unfoldable pub prepare : Db → ℕ → ℕ → String → Result Job
unfolding strictness_of check_queued latest_version
prepare db e t strictness = do
  level ← strictness_of strictness
  essay ← load_essay_tenant_scoped db e t
  version ← or_raise (latest_version db e) not_found
  assignment ←
      or_raise
        (get_where essay.assignment_id (λ x. is_owner (owner_of_assignment db x) t) db.assignments)
        not_found
  check_queued essay.status
  ok (record { essay = essay; version = version; assignment = assignment; level = level })

-- The second transaction: the grade, its scores and its log entries with the essay's new status, or,
-- when the version has a grade already, the essay back in the queue.
unfoldable pub write_grade :
    Uuids → NewIds → ℕ → String → Db → Job → ParsedGradingResponse → Result Grade × Db
unfolding rows_of grade_of
write_grade u ids now prompt db job answer = elim (grade_of_version db job.version.id) [
  | some _ ↦ (err conflict, set_status db queued job.essay)
  | none ↦ elim (rows_of u ids 0 answer.criterion_scores) [
    | err e ↦ (err e, db)
    | ok (rows, logs) ↦
        let grade =
          grade_of ids now job.level prompt job.version.id job.assignment.rubric_snapshot.criteria
            answer in
        (
          ok grade,
          record (set_status db graded job.essay) {
            grades = db.grades ++ grade ∷ [];
            criterion_scores = db.criterion_scores ++ rows;
            audit_logs = db.audit_logs ++ logs;
          },
        )
  ]
]

unfoldable pub grade_essay :
    Uuids
    → NewIds
    → ℕ
    → String
    → (List CriterionInfo → Result ParsedGradingResponse)
    → Db
    → ℕ
    → ℕ
    → String
    → Result Grade × Db
unfolding prepare
grade_essay u ids now prompt call db e t strictness = elim (prepare db e t strictness) [
  | err x ↦ (err x, db)
  | ok job ↦
      let db₁ = set_status db EssayStatus.grading job.essay in
      elim (call (map (info_of u) job.assignment.rubric_snapshot.criteria)) [
        | err x ↦ (err x, db₁)
        | ok answer ↦ write_grade u ids now prompt db₁ job answer
      ]
]
