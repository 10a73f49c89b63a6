-- ===== src/Regrades.antt =====
-- backend/app/services/regrade_request.py: submitting and listing regrade requests (Resolutions has
-- their resolution). As in Grades, an operation returns the database after its commit, or raises
-- before it. The clock and the new row's UUID are arguments, and the two limits of config.py are
-- `Settings`. The count of a grade's requests is a query made under the lock of the grade's row
-- (SELECT … FOR UPDATE), so that concurrent submissions count one after the other.
pub mod Limit
use rubric_grading_engine.Prelude.{
  ℕ, ◌+◌, ◌*◌, String, Bool, false, ◌&&◌, Option, none, some, List, ◌∷◌, ◌++◌, ltb, leb, ◌==◌,
  select, count_if, [],
}
use rubric_grading_engine.Prelude.Results.{
  not_found, regrade_window_closed, regrade_limit_reached, Result, ok, raise_if, or_raise, ◌>>=◌,
  ◌>>◌,
}
use rubric_grading_engine.Prelude.Tables.{get, get_where}
use rubric_grading_engine.Models.{
  CriterionScore, Assignment, RegradeRequest, RegradeStatus, score_row, grade_row, assignment_row,
}
use rubric_grading_engine.Models.Store.{
  Db, scoped, is_owner, owner_of_assignment, assignment_of_version, load_grade_tenant_scoped,
}

-- regrade_window_days and regrade_max_per_grade of config.py
pub record Settings : Type 0 where
  pub window_days : ℕ
  pub max_per_grade : ℕ

-- A day in microseconds, the unit of a timestamp.
abbrev pub day : ℕ
day = 86400000000

-- `RegradeRequestCreate`
pub record Submission : Type 0 where
  pub dispute_text : String
  pub criterion_score_id : Option ℕ

abbrev pub of_grade : ℕ → RegradeRequest → Bool
of_grade g x = x.grade_id == g

unfoldable pub check_criterion : Db → ℕ → Option ℕ → Result (Unit {0})
check_criterion db g none = ok tt
check_criterion db g (some c) = do
  _ ← or_raise (get_where c (λ (x : CriterionScore). x.grade_id == g) db.criterion_scores) not_found
  ok tt

abbrev pub new_request : ℕ → ℕ → ℕ → Submission → RegradeRequest
new_request id g t body = record {
  id = id;
  grade_id = g;
  criterion_score_id = body.criterion_score_id;
  teacher_id = t;
  dispute_text = body.dispute_text;
  status = RegradeStatus.open_;
  resolution_note = none;
  resolved_at = none;
}

-- The second and third arguments are the clock and the new row's id.
unfoldable pub create_regrade_request :
    Settings → ℕ → ℕ → Db → ℕ → ℕ → Submission → Result (Db × RegradeRequest)
create_regrade_request s now id db g t body = do
  grade ← load_grade_tenant_scoped db g t
  raise_if (ltb (grade.created_at + s.window_days * day) now) regrade_window_closed
  raise_if (leb s.max_per_grade (count_if (of_grade g) db.regrade_requests)) regrade_limit_reached
  check_criterion db g body.criterion_score_id
  let x = new_request id g t body
  ok (record db { regrade_requests = db.regrade_requests ++ x ∷ [] }, x)

unfoldable pub load_assignment_tenant_scoped : Db → ℕ → ℕ → Result Assignment
load_assignment_tenant_scoped db a t =
    scoped (get_where a (λ x. is_owner (owner_of_assignment db x) t) db.assignments)
      (get a db.assignments)

-- The join of a request with its assignment.
unfoldable pub assignment_of_request : Db → RegradeRequest → Option Assignment
assignment_of_request db x = elim (get x.grade_id db.grades) [
  | none ↦ none
  | some g ↦ assignment_of_version db g.essay_version_id
]

abbrev pub in_assignment : Db → ℕ → ℕ → RegradeRequest → Bool
in_assignment db a t x = elim (assignment_of_request db x) [
  | none ↦ false
  | some y ↦ y.id == a && is_owner (owner_of_assignment db y) t
]

-- Rows stand in the order of their creation, which the query asks for.
unfoldable pub list_regrade_requests_for_assignment : Db → ℕ → ℕ → Result (List RegradeRequest)
unfolding load_assignment_tenant_scoped assignment_of_request
list_regrade_requests_for_assignment db a t = do
  _ ← load_assignment_tenant_scoped db a t
  ok (select (in_assignment db a t) db.regrade_requests)
