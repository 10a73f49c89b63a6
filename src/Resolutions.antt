-- ===== src/Resolutions.antt =====
-- backend/app/services/regrade_request.py: `resolve_regrade_request`, in its two parts: the load of
-- the request, and what is done with it under the lock of its row. The lock is a SELECT … FOR UPDATE
-- of the id alone, so it does not read the loaded row again.
pub mod Terminal
pub mod Outcome
pub mod Stale
use text.Mathlib.Text.{◌==◌ as str_eq}
use rubric_grading_engine.Prelude.{
  ℕ, String, Bool, true, false, not, ◌&&◌, Option, none, some, List, ◌∷◌, ◌++◌, ◌==◌, [],
  if◌then◌else◌,
}
use rubric_grading_engine.Prelude.Int.{ℤ}
use rubric_grading_engine.Prelude.Results.{
  Error, not_found, conflict, grade_locked, validation_error, Result, ok, err, raise_if, or_raise,
  ◌>>=◌, ◌>>◌,
}
use rubric_grading_engine.Prelude.Tables.{get, get_where, put}
use rubric_grading_engine.Models.{
  Grade, CriterionScore, SnapshotCriterion, Assignment, RegradeRequest, RegradeStatus, AuditLog,
  EntityType, score_override, regrade_resolved, approved, denied, grade_row, request_row, score_row,
}
use rubric_grading_engine.Models.Store.{Db, scoped, is_owner, owner_of_grade, assignment_of_version}
use rubric_grading_engine.Grades.{criterion_of, in_range, score_value, sum_final, is_none}

-- `RegradeRequestResolveRequest.resolution`
pub data Resolution : Type 0 where
  approve deny : Resolution

-- `RegradeRequestResolveRequest`
pub record Decision : Type 0 where
  pub resolution : Resolution
  pub resolution_note : Option String
  pub new_criterion_score : Option ℤ

unfoldable pub owner_of_request : Db → RegradeRequest → Option ℕ
unfolding owner_of_grade
owner_of_request db x = elim (get x.grade_id db.grades) [
  | none ↦ none
  | some g ↦ owner_of_grade db g
]

unfoldable pub load_request_tenant_scoped : Db → ℕ → ℕ → Result RegradeRequest
unfolding owner_of_request
load_request_tenant_scoped db q t =
    scoped (get_where q (λ x. is_owner (owner_of_request db x) t) db.regrade_requests)
      (get q db.regrade_requests)

abbrev pub is_open : RegradeStatus → Bool
is_open RegradeStatus.open_ = true
is_open _ = false

abbrev pub is_denial : Resolution → Bool
is_denial approve = false
is_denial deny = true

-- `not body.resolution_note`
unfoldable pub is_blank : Option String → Bool
is_blank none = true
is_blank (some text) = str_eq text ""

-- Unlike an override, a score for a criterion that the snapshot lacks is refused.
unfoldable pub check_new_score : Option SnapshotCriterion → ℤ → Result (Unit {0})
check_new_score none n = err (validation_error "new_criterion_score")
check_new_score (some c) n = raise_if (not (in_range c n)) (validation_error "new_criterion_score")

unfoldable pub check_against_snapshot : Option Assignment → CriterionScore → ℤ → Result (Unit {0})
unfolding check_new_score criterion_of
check_against_snapshot none x n = ok tt
check_against_snapshot (some a) x n = check_new_score (criterion_of x.rubric_criterion_id a) n

-- The grade of the request, if it is still there: refused when locked, and the score checked.
unfoldable pub check_grade : Db → Option Grade → CriterionScore → ℤ → Result (Unit {0})
unfolding check_against_snapshot
check_grade db none x n = ok tt
check_grade db (some grade) x n = do
  raise_if grade.is_locked Error.grade_locked
  check_against_snapshot (assignment_of_version db grade.essay_version_id) x n

abbrev pub rescore : ℤ → CriterionScore → CriterionScore
rescore n x = record x { teacher_score = some n; final_score = n }

-- The total over the rows as they are before the flush.
abbrev pub retotal_grade : Db → Option Grade → List Grade
retotal_grade db none = db.grades
retotal_grade db (some grade) =
    put (record grade { total_score = sum_final grade.id db.criterion_scores }) db.grades

unfoldable pub apply_new_score : Db → RegradeRequest → ℕ → ℕ → ℤ → Result Db
unfolding check_grade
apply_new_score db q c t n = do
  x ←
      or_raise (get_where c (λ (x : CriterionScore). x.grade_id == q.grade_id) db.criterion_scores)
        not_found
  let grade = get q.grade_id db.grades
  check_grade db grade x n
  let audit : AuditLog = record {
    teacher_id = some t;
    entity_type = EntityType.criterion_score;
    entity_id = x.id;
    action = score_override (score_value x) (score_value (rescore n x));
  }
  ok (record db {
    grades = retotal_grade db grade;
    criterion_scores = put (rescore n x) db.criterion_scores;
    audit_logs = db.audit_logs ++ audit ∷ [];
  })

-- Only an approval with a score, of a request about a criterion, changes the grade.
unfoldable pub apply_decision : Db → RegradeRequest → ℕ → Decision → Result Db
unfolding apply_new_score
apply_decision db q t body = elim body.resolution [
  | deny ↦ ok db
  | approve ↦ elim body.new_criterion_score [
    | none ↦ ok db
    | some n ↦ elim q.criterion_score_id [ none ↦ ok db | some c ↦ apply_new_score db q c t n ]
  ]
]

abbrev pub status_after : Resolution → RegradeStatus
status_after approve = approved
status_after deny = denied

abbrev pub resolved : ℕ → Decision → RegradeRequest → RegradeRequest
resolved now body q = record q {
  status = status_after body.resolution;
  resolution_note = body.resolution_note;
  resolved_at = some now;
}

abbrev pub resolution_log : ℕ → Decision → RegradeRequest → AuditLog
resolution_log t body q = record {
  teacher_id = some t;
  entity_type = EntityType.grade;
  entity_id = q.grade_id;
  action =
      regrade_resolved q.status (status_after body.resolution) body.resolution_note
        body.new_criterion_score q.id q.criterion_score_id;
}

unfoldable pub check_decision : RegradeRequest → Decision → Result (Unit {0})
unfolding is_blank
check_decision q body = do
  raise_if (not (is_open q.status)) conflict
  raise_if (is_denial body.resolution && is_blank body.resolution_note)
      (validation_error "resolution_note")
  raise_if (not (is_none body.new_criterion_score) && is_denial body.resolution)
      (validation_error "new_criterion_score")
  raise_if (not (is_none body.new_criterion_score) && is_none q.criterion_score_id)
      (validation_error "new_criterion_score")

-- Two values of the nullable note are the same.
unfoldable pub is_same_note : Option String → Option String → Bool
is_same_note none none = true
is_same_note (some a) (some b) = str_eq a b
is_same_note _ _ = false

-- The row of the request that the locked database has; no operation deletes one.
unfoldable pub row_under_lock : Db → RegradeRequest → RegradeRequest
row_under_lock db q = elim (get q.id db.regrade_requests) [ none ↦ q | some row ↦ row ]

-- The flush: the UPDATE sets the columns that differ from the loaded request `q`. The status does, since
-- the request was open, and the time, which an open request does not have; the note may not.
unfoldable pub flush_request : RegradeRequest → RegradeRequest → RegradeRequest → RegradeRequest
flush_request q changed row = record row {
  status = changed.status;
  resolution_note =
      if is_same_note q.resolution_note changed.resolution_note
      then row.resolution_note
      else changed.resolution_note;
  resolved_at = changed.resolved_at;
}

-- What follows the load: `q` is the request as it was loaded, `db` the database once the lock of its
-- row is held, which another resolution may have changed in between. The first argument is the clock. What is
-- returned is the row as it is read again after the commit.
unfoldable pub resolve_loaded :
    ℕ → Db → RegradeRequest → ℕ → Decision → Result (Db × RegradeRequest)
resolve_loaded now db q t body = do
  check_decision q body
  scored ← apply_decision db q t body
  let q' = flush_request q (resolved now body q) (row_under_lock db q)
  ok (
    record scored {
      regrade_requests = put q' scored.regrade_requests;
      audit_logs = scored.audit_logs ++ resolution_log t body q ∷ [];
    },
    q',
  )

-- With no other writer between the load and the lock.
unfoldable pub resolve_regrade_request : ℕ → Db → ℕ → ℕ → Decision → Result (Db × RegradeRequest)
resolve_regrade_request now db id t body = do
  q ← load_request_tenant_scoped db id t
  resolve_loaded now db q t body
