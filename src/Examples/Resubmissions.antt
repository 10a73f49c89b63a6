-- ===== src/Examples/Resubmissions.antt =====
-- The theorems on resubmissions, for the essay 3 of teacher 7 and its two graded versions.
use rubric_grading_engine.Prelude.{
  ℕ, Option, List, ◌≡◌, refl, true, false, if◌then◌else◌, none, some, [], ◌∷◌,
}
use rubric_grading_engine.Prelude.Int.{pos, ◌+ℤ◌, ◌-ℤ◌}
use rubric_grading_engine.Prelude.Tables.{get, get_where}
use rubric_grading_engine.Parsing.Text.{is_empty, strip}
use rubric_grading_engine.Prelude.Results.{ok}
use rubric_grading_engine.Prelude.Texts.{str_eq}
use rubric_grading_engine.Models.{Grade, CriterionScore}
use rubric_grading_engine.Models.Store.{Db, owner_of_essay}
use rubric_grading_engine.Resubmission.{
  Words, Assessment, RevisionComparison, Pair, compute_revision_comparison, get_revision_comparison,
  is_similar, is_negligible, detect_low_effort, build_feedback_items, address_feedback,
  criterion_delta, build_comparison,
}
use rubric_grading_engine.Resubmission.Deltas.{delta_total, compute-delta_total}
use rubric_grading_engine.Resubmission.Latest.{compute-get_comparison}
use rubric_grading_engine.Examples.Data.{db, essay, version, grade, score}

-- A text has one word, which is the text.
abbrev words : Words
words = record {
  split_lower = λ s. s ∷ [];
  word_count = λ v. if str_eq v.content "Once" then 100 else 130;
  str = λ k. "30";
}

abbrev grade_of_version_no : ℕ → ℕ → ℕ → Grade
grade_of_version_no id v total = record {
  id = id;
  essay_version_id = v;
  total_score = pos total;
  max_possible_score = pos 10;
  summary_feedback = "Good";
  summary_feedback_edited = none;
  strictness = grade.strictness;
  prompt_version = "grading-v2";
  is_locked = false;
  locked_at = none;
  overall_confidence = none;
  created_at = id;
}

abbrev score_of_grade_no : ℕ → ℕ → ℕ → CriterionScore
score_of_grade_no id g points = record {
  id = id;
  grade_id = g;
  rubric_criterion_id = 30;
  ai_score = pos points;
  teacher_score = none;
  final_score = pos points;
  ai_justification = "Clear";
  ai_feedback = some " Cite more. ";
  teacher_feedback = none;
  confidence = score.confidence;
}

abbrev resubmitted : Db
resubmitted = record {
  classes = db.classes;
  students = db.students;
  assignments = db.assignments;
  essays = db.essays;
  versions = version ∷ record { id = 15; essay_id = 3; version_number = 2; content = "Twice" } ∷ [];
  grades = grade_of_version_no 40 4 6 ∷ grade_of_version_no 41 15 8 ∷ [];
  criterion_scores = score_of_grade_no 50 40 6 ∷ score_of_grade_no 51 41 8 ∷ [];
  regrade_requests = [];
  audit_logs = [];
}

abbrev pair : Pair
pair = record {
  essay_id = 3;
  base_version_id = 4;
  revised_version_id = 15;
  base_grade_id = 40;
  revised_grade_id = 41;
}

abbrev comparison : RevisionComparison
comparison = record {
  id = 60;
  essay_id = 3;
  base_version_id = 4;
  revised_version_id = 15;
  base_grade_id = 40;
  revised_grade_id = 41;
  total_score_delta = pos 2;
  criterion_deltas =
      record { criterion_id = 30; base_score = pos 6; revised_score = pos 8; delta = pos 2 } ∷ [];
  is_low_effort = false;
  low_effort_reasons = [];
  feedback_addressed = some (
      record {
        criterion_id = "30";
        feedback_given = "Cite more.";
        addressed = true;
        detail = "Two sources.";
      }
      ∷ []);
  created_at = 9;
}

abbrev answers : Option (List Assessment)
answers = some (("30", true, "Two sources.") ∷ [])

computed :
    compute_revision_comparison words answers resubmitted [] 60 9 pair
    ≡ ok (comparison, comparison ∷ [])
unfolding compute_revision_comparison build_comparison detect_low_effort is_similar is_negligible
    build_feedback_items address_feedback criterion_delta get_where get ◌-ℤ◌ is_empty strip
computed = refl

compute-delta_total_example : delta_total comparison.criterion_deltas ≡ comparison.total_score_delta
unfolding get ◌+ℤ◌
compute-delta_total_example =
    compute-delta_total words answers resubmitted [] (comparison ∷ []) 60 9 pair
      (grade_of_version_no 40 4 6) (grade_of_version_no 41 15 8) comparison computed refl refl refl
      refl (refl, tt) (refl, tt)

compute-get_comparison_example :
    get_revision_comparison resubmitted (comparison ∷ []) 3 7 ≡ ok comparison
unfolding get owner_of_essay
compute-get_comparison_example =
    compute-get_comparison words answers resubmitted [] (comparison ∷ []) 60 9 7 pair essay
      comparison computed tt refl refl
