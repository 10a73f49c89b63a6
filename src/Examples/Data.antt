-- ===== src/Examples/Data.antt =====
-- The database of the examples: teacher 7 has the class 1 with the assignment 2. Its essay 3 waits
-- for its grading; its essay 13 has the grade 5.
use rubric_grading_engine.Prelude.{false, none, some, [], ◌∷◌}
use rubric_grading_engine.Prelude.Int.{pos}
use rubric_grading_engine.Models.{
  AssignmentStatus, queued, graded, balanced, high, direct, SnapshotCriterion, Assignment, Essay,
  EssayVersion, Grade, CriterionScore, RegradeRequest, RegradeStatus, class_row, student_row,
  assignment_row, essay_row, version_row, grade_row, score_row, request_row,
}
use rubric_grading_engine.Models.Store.{Db}

abbrev pub criterion : SnapshotCriterion
criterion = record {
  id = 30;
  name = "Thesis";
  description = "";
  weight = 10000;
  min_score = pos 0;
  max_score = pos 10;
  display_order = 0;
  anchor_descriptions = none;
}

abbrev pub assignment : Assignment
assignment = record {
  id = 2;
  class_id = 1;
  rubric_id = 20;
  rubric_snapshot = record {
    id = 20;
    name = "Essay";
    description = none;
    criteria = criterion ∷ [];
  };
  title = "Essay";
  prompt = none;
  due_date = none;
  status = AssignmentStatus.open_;
  feedback_tone = direct;
  resubmission_enabled = false;
}

abbrev pub essay : Essay
essay = record { id = 3; assignment_id = 2; student_id = some 9; status = queued }

abbrev pub version : EssayVersion
version = record { id = 4; essay_id = 3; version_number = 1; content = "Once" }

abbrev pub grade : Grade
grade = record {
  id = 5;
  essay_version_id = 14;
  total_score = pos 4;
  max_possible_score = pos 10;
  summary_feedback = "Good";
  summary_feedback_edited = none;
  strictness = balanced;
  prompt_version = "grading-v2";
  is_locked = false;
  locked_at = none;
  overall_confidence = some high;
  created_at = 1000;
}

abbrev pub score : CriterionScore
score = record {
  id = 6;
  grade_id = 5;
  rubric_criterion_id = 30;
  ai_score = pos 4;
  teacher_score = none;
  final_score = pos 4;
  ai_justification = "Clear";
  ai_feedback = none;
  teacher_feedback = none;
  confidence = high;
}

abbrev pub request : RegradeRequest
request = record {
  id = 8;
  grade_id = 5;
  criterion_score_id = some 6;
  teacher_id = 7;
  dispute_text = "Too low";
  status = RegradeStatus.open_;
  resolution_note = none;
  resolved_at = none;
}

abbrev pub db : Db
db = record {
  classes = record { id = 1; teacher_id = 7 } ∷ [];
  students = record { id = 9; teacher_id = 7; full_name = "Ada" } ∷ [];
  assignments = assignment ∷ [];
  essays = essay ∷ record { id = 13; assignment_id = 2; student_id = none; status = graded } ∷ [];
  versions = version ∷ record { id = 14; essay_id = 13; version_number = 1; content = "Then" } ∷ [];
  grades = grade ∷ [];
  criterion_scores = score ∷ [];
  regrade_requests = request ∷ [];
  audit_logs = [];
}
