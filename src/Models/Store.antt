-- ===== src/Models/Store.antt =====
-- The database as its tables, the ownership chain Grade → EssayVersion → Essay → Assignment →
-- Class that every query joins along, and the loads of a row for one teacher. Rows stand in the
-- order of their creation, which is that of `ORDER BY created_at`.
use rubric_grading_engine.Prelude.{
  ℕ, ◌≡◌, ◌↔◌, Bool, false, Option, none, some, List, arith, ◌==◌, if◌then◌else◌, any,
}
use rubric_grading_engine.Prelude.Results.{not_found, forbidden, Result, ok, err, or_raise, ◌>>=◌}
use rubric_grading_engine.Prelude.Tables.{get, get_where, put, key-get, get-put}
use rubric_grading_engine.Models.Rows.{
  Class, Student, Assignment, Essay, EssayVersion, Grade, CriterionScore, RegradeRequest, AuditLog,
  class_row, assignment_row, grade_row, version_row, essay_row,
}

pub record Db : Type 0 where
  pub classes : List Class
  pub students : List Student
  pub assignments : List Assignment
  pub essays : List Essay
  pub versions : List EssayVersion
  pub grades : List Grade
  pub criterion_scores : List CriterionScore
  pub regrade_requests : List RegradeRequest
  pub audit_logs : List AuditLog

-- An inner join: the rest of the query at the row that is found.
infixl 5 ◌⋈◌
abbrev pub ◌⋈◌ : {A B : Type 0} → Option A → (A → Option B) → Option B
none ⋈ f = none
some a ⋈ f = f a

unfoldable pub owner_of_assignment : Db → Assignment → Option ℕ
owner_of_assignment db a = get a.class_id db.classes ⋈ λ (c : Class). some c.teacher_id

unfoldable pub assignment_of_essay : Db → Essay → Option Assignment
assignment_of_essay db e = get e.assignment_id db.assignments

unfoldable pub assignment_of_version : Db → ℕ → Option Assignment
unfolding assignment_of_essay
assignment_of_version db v = get v db.versions ⋈ λ (v : EssayVersion).
    get v.essay_id db.essays ⋈ λ (e : Essay). assignment_of_essay db e

unfoldable pub owner_of_essay : Db → Essay → Option ℕ
unfolding assignment_of_essay owner_of_assignment
owner_of_essay db e = assignment_of_essay db e ⋈ owner_of_assignment db

unfoldable pub owner_of_grade : Db → Grade → Option ℕ
unfolding assignment_of_version owner_of_assignment
owner_of_grade db g = assignment_of_version db g.essay_version_id ⋈ owner_of_assignment db

-- `Class.teacher_id == teacher_id`, false where the join has no row.
abbrev pub is_owner : Option ℕ → ℕ → Bool
is_owner none t = false
is_owner (some o) t = o == t

-- The row of a scoped query; else 404 if there is no such row at all, and 403 if there is.
abbrev pub scoped : {A : Type 0} → Option A → Option A → Result A
scoped (some a) any = ok a
scoped none none = err not_found
scoped none (some _) = err forbidden

-- `_load_grade_tenant_scoped`
unfoldable pub load_grade_tenant_scoped : Db → ℕ → ℕ → Result Grade
unfolding owner_of_grade
load_grade_tenant_scoped db g t =
    scoped (get_where g (λ x. is_owner (owner_of_grade db x) t) db.grades) (get g db.grades)

-- The essay's query of grading.py, grade.py and batch_grading.py.
unfoldable pub load_essay_tenant_scoped : Db → ℕ → ℕ → Result Essay
unfolding owner_of_essay
load_essay_tenant_scoped db e t =
    scoped (get_where e (λ x. is_owner (owner_of_essay db x) t) db.essays) (get e db.essays)

-- `_get_assignment_owned_by` of services/assignment.py
unfoldable pub get_assignment : Db → ℕ → ℕ → Result Assignment
unfolding owner_of_assignment
get_assignment db t a = do
  found ← or_raise (get a db.assignments) not_found
  owner ← or_raise (owner_of_assignment db found) not_found
  if owner == t then ok found else err forbidden

-- A load succeeds exactly for a row that is there and that the teacher owns; a row of another
-- teacher is forbidden, and a missing row not found.
pub load_grade_iff :
    (db : Db) (g t : ℕ) (row : Grade)
    → (load_grade_tenant_scoped db g t ≡ ok row)
      ↔ ((get g db.grades ≡ some row) × (owner_of_grade db row ≡ some t))
unfolding load_grade_tenant_scoped get_where
load_grade_iff db g t row = ground arith

-- The same for an essay.
pub load_essay_iff :
    (db : Db) (e t : ℕ) (row : Essay)
    → (load_essay_tenant_scoped db e t ≡ ok row)
      ↔ ((get e db.essays ≡ some row) × (owner_of_essay db row ≡ some t))
unfolding load_essay_tenant_scoped get_where
load_essay_iff db e t row = ground arith

-- The database after a grade was written, with whatever else of its scores, requests and log.
abbrev pub with_grade : Db → Grade → List CriterionScore → List RegradeRequest → List AuditLog → Db
with_grade db grade scores requests logs = record db {
  grades = put grade db.grades;
  criterion_scores = scores;
  regrade_requests = requests;
  audit_logs = logs;
}

-- A write of a grade that keeps its id and its version is what the teacher loads next.
pub load_grade-with_grade :
    (db : Db) (g t : ℕ) (grade grade' : Grade) (scores : List CriterionScore)
    (requests : List RegradeRequest) (logs : List AuditLog)
    → get g db.grades ≡ some grade
    → owner_of_grade db grade ≡ some t
    → grade'.id ≡ grade.id
    → grade'.essay_version_id ≡ grade.essay_version_id
    → load_grade_tenant_scoped (with_grade db grade' scores requests logs) g t ≡ ok grade'
unfolding owner_of_grade
load_grade-with_grade db g t grade grade' scores requests logs found owned id version =
    (load_grade_iff (with_grade db grade' scores requests logs) g t grade').1 (
      ground (arith, get-put g grade' db.grades, key-get g grade db.grades found),
      rw version owned,
    )
