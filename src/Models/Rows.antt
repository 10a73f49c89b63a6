-- ===== src/Models/Rows.antt =====
-- The tables' rows: models/class_.py, student.py, rubric.py, assignment.py, essay.py, grade.py,
-- regrade_request.py and audit_log.py.
use rubric_grading_engine.Prelude.{ℕ, String, Bool, Option, List}
use rubric_grading_engine.Prelude.Int.{ℤ}
use rubric_grading_engine.Prelude.Tables.{Row}
use rubric_grading_engine.Models.Kinds.{
  AssignmentStatus, FeedbackTone, EssayStatus, StrictnessLevel, ConfidenceLevel, RegradeStatus,
  EntityType, AuditAction,
}

pub record Class : Type 0 where
  pub id : ℕ
  pub teacher_id : ℕ

pub record Student : Type 0 where
  pub id : ℕ
  pub teacher_id : ℕ
  pub full_name : String

-- One entry of `rubric_snapshot["criteria"]`.
pub record SnapshotCriterion : Type 0 where
  pub id : ℕ
  pub name : String
  pub description : String
  pub weight : ℕ  -- in hundredths of a per cent
  pub min_score : ℤ
  pub max_score : ℤ
  pub display_order : ℕ
  pub anchor_descriptions : Option (List (String × String))

-- The immutable JSONB snapshot of a rubric.
pub record RubricSnapshot : Type 0 where
  pub id : ℕ
  pub name : String
  pub description : Option String
  pub criteria : List SnapshotCriterion

pub record Assignment : Type 0 where
  pub id : ℕ
  pub class_id : ℕ
  pub rubric_id : ℕ
  pub rubric_snapshot : RubricSnapshot
  pub title : String
  pub prompt : Option String
  pub due_date : Option ℕ
  pub status : AssignmentStatus
  pub feedback_tone : FeedbackTone
  pub resubmission_enabled : Bool

pub record Essay : Type 0 where
  pub id : ℕ
  pub assignment_id : ℕ
  pub student_id : Option ℕ
  pub status : EssayStatus

pub record EssayVersion : Type 0 where
  pub id : ℕ
  pub essay_id : ℕ
  pub version_number : ℕ
  pub content : String

pub record Grade : Type 0 where
  pub id : ℕ
  pub essay_version_id : ℕ
  pub total_score : ℤ
  pub max_possible_score : ℤ
  pub summary_feedback : String
  pub summary_feedback_edited : Option String
  pub strictness : StrictnessLevel
  pub prompt_version : String
  pub is_locked : Bool
  pub locked_at : Option ℕ
  pub overall_confidence : Option ConfidenceLevel
  pub created_at : ℕ  -- in microseconds

pub record CriterionScore : Type 0 where
  pub id : ℕ
  pub grade_id : ℕ
  pub rubric_criterion_id : ℕ
  pub ai_score : ℤ
  pub teacher_score : Option ℤ
  pub final_score : ℤ
  pub ai_justification : String
  pub ai_feedback : Option String
  pub teacher_feedback : Option String
  pub confidence : ConfidenceLevel

pub record RegradeRequest : Type 0 where
  pub id : ℕ
  pub grade_id : ℕ
  pub criterion_score_id : Option ℕ
  pub teacher_id : ℕ
  pub dispute_text : String
  pub status : RegradeStatus
  pub resolution_note : Option String
  pub resolved_at : Option ℕ

pub record AuditLog : Type 0 where
  pub teacher_id : Option ℕ
  pub entity_type : EntityType
  pub entity_id : ℕ
  pub action : AuditAction

instance abbrev pub class_row : Row Class
class_row = record { key = λ x. x.id }

instance abbrev pub student_row : Row Student
student_row = record { key = λ x. x.id }

instance abbrev pub assignment_row : Row Assignment
assignment_row = record { key = λ x. x.id }

instance abbrev pub essay_row : Row Essay
essay_row = record { key = λ x. x.id }

instance abbrev pub version_row : Row EssayVersion
version_row = record { key = λ x. x.id }

instance abbrev pub grade_row : Row Grade
grade_row = record { key = λ x. x.id }

instance abbrev pub score_row : Row CriterionScore
score_row = record { key = λ x. x.id }

instance abbrev pub request_row : Row RegradeRequest
request_row = record { key = λ x. x.id }
