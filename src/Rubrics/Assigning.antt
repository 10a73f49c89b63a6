-- ===== src/Rubrics/Assigning.antt =====
-- backend/app/services/assignment.py: create_assignment, with the snapshot of the rubric that it takes,
-- and list_assignments.
use rubric_grading_engine.Prelude.{
  ℕ, String, false, not, ◌&&◌, Option, List, [], ◌∷◌, ◌++◌, ◌==◌, select,
}
use rubric_grading_engine.Prelude.Results.{
  not_found, forbidden, Result, ok, ◌>>=◌, ◌>>◌, raise_if, or_raise,
}
use rubric_grading_engine.Prelude.Tables.{get, get_where}
use rubric_grading_engine.Models.{Class, Assignment, draft, class_row}
use rubric_grading_engine.Models.Store.{Db}
use rubric_grading_engine.Assignments.{tone_of}
use rubric_grading_engine.Rubrics.{
  Library, rubric_row, is_deleted, is_owned_by, get_criteria_for_rubric, build_rubric_snapshot,
}
use rubric_grading_engine.Rubrics.Listing.{newest_first}

-- The first query decides between 404 and 403, the second loads the row.
unfoldable pub get_class_owned_by : Db → ℕ → ℕ → Result Class
get_class_owned_by db c t = do
  row ← or_raise (get c db.classes) not_found
  raise_if (not (row.teacher_id == t)) forbidden
  or_raise (get_where c (λ (x : Class). x.teacher_id == t) db.classes) not_found

unfoldable pub list_assignments : Db → ℕ → ℕ → Result (List Assignment)
list_assignments db t c = do
  found ← get_class_owned_by db c t
  ok (newest_first (select (λ (a : Assignment). a.class_id == c) db.assignments))

-- The arguments of a new assignment, and the id that its row will have.
pub record NewAssignment : Type 0 where
  pub id : ℕ
  pub class_id : ℕ
  pub rubric_id : ℕ
  pub title : String
  pub prompt : Option String
  pub due_date : Option ℕ
  pub feedback_tone : String

-- The second query of the rubric takes the one row that there must be; without it `scalar_one` raises.
unfoldable pub create_assignment : Library → ℕ → NewAssignment → Result (Library × Assignment)
create_assignment lib t body = do
  found ← get_class_owned_by lib.db body.class_id t
  row ← or_raise (get_where body.rubric_id (λ r. not (is_deleted r)) lib.rubrics) not_found
  raise_if (not (is_owned_by t row)) forbidden
  rubric ←
      or_raise (get_where body.rubric_id (λ r. is_owned_by t r && not (is_deleted r)) lib.rubrics)
        not_found
  let criteria = get_criteria_for_rubric lib.criteria body.rubric_id
  let snapshot = build_rubric_snapshot rubric criteria
  tone ← tone_of body.feedback_tone
  let assignment : Assignment = record {
    id = body.id;
    class_id = body.class_id;
    rubric_id = body.rubric_id;
    rubric_snapshot = snapshot;
    title = body.title;
    prompt = body.prompt;
    due_date = body.due_date;
    status = draft;
    feedback_tone = tone;
    resubmission_enabled = false;
  }
  ok (
    record lib { db = record lib.db { assignments = lib.db.assignments ++ (assignment ∷ []) } },
    assignment,
  )
