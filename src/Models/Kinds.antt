-- ===== src/Models/Kinds.antt =====
-- The enumerations of models/assignment.py, essay.py, grade.py, regrade_request.py, and the JSON
-- payloads of models/audit_log.py.
use rubric_grading_engine.Prelude.{ℕ, String, Option}
use rubric_grading_engine.Prelude.Int.{ℤ}

-- AssignmentStatus
pub data AssignmentStatus : Type 0 where
  draft open_ grading review complete returned : AssignmentStatus

-- FeedbackTone
pub data FeedbackTone : Type 0 where
  encouraging direct academic : FeedbackTone

-- EssayStatus
pub data EssayStatus : Type 0 where
  unassigned queued grading graded reviewed locked returned : EssayStatus

-- StrictnessLevel
pub data StrictnessLevel : Type 0 where
  lenient balanced strict : StrictnessLevel

-- ConfidenceLevel
pub data ConfidenceLevel : Type 0 where
  high medium low : ConfidenceLevel

-- RegradeRequestStatus
pub data RegradeStatus : Type 0 where
  open_ approved denied : RegradeStatus

-- The `before_value` and `after_value` of a score override.
pub record ScoreValue : Type 0 where
  pub teacher_score : Option ℤ
  pub teacher_feedback : Option String
  pub final_score : ℤ

-- `entity_type`
pub data EntityType : Type 0 where
  grade criterion_score : EntityType

-- `action` with its `before_value` and `after_value`.
pub data AuditAction : Type 0 where
  feedback_edited : String → String → AuditAction
  score_override : ScoreValue → ScoreValue → AuditAction
  grade_locked : AuditAction
  score_clamped : ℕ → Option ℤ → ℤ → AuditAction
  regrade_resolved :
      RegradeStatus → RegradeStatus → Option String → Option ℤ → ℕ → Option ℕ → AuditAction

pub AssignmentStatus-discrete : Discrete AssignmentStatus
AssignmentStatus-discrete = hlevel
