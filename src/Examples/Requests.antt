-- ===== src/Examples/Requests.antt =====
-- The theorems on regrade requests and assignments, on the data of Examples/Data.
use rubric_grading_engine.Prelude.{ℕ, ◌≡◌, refl, ◌≢◌, ◌↔◌, none, some, [], ◌∷◌, ◌++◌, arith}
use rubric_grading_engine.Prelude.Int.{pos, ◌+ℤ◌}
use rubric_grading_engine.Prelude.Results.{conflict, ok, err}
use rubric_grading_engine.Prelude.Tables.{get, get_where, put}
use rubric_grading_engine.Models.{
  AssignmentStatus, Assignment, CriterionScore, Grade, RegradeRequest, approved, score_row,
  grade_row, request_row, assignment_row, class_row, version_row, essay_row,
}
use rubric_grading_engine.Models.Store.{
  Db, owner_of_grade, owner_of_assignment, assignment_of_version, assignment_of_essay,
  load_grade_tenant_scoped, get_assignment,
}
use rubric_grading_engine.Grades.{criterion_of, sum_final}
use rubric_grading_engine.Regrades.{
  Settings, Submission, check_criterion, new_request, create_regrade_request,
}
use rubric_grading_engine.Regrades.Limit.{WithinLimit, Accepted, create_iff, create-WithinLimit}
use rubric_grading_engine.Resolutions.{
  Decision, approve, deny, owner_of_request, load_request_tenant_scoped, is_blank, check_new_score,
  check_against_snapshot, check_grade, rescore, apply_new_score, apply_decision, resolved,
  resolution_log, check_decision, resolve_loaded, resolve_regrade_request, flush_request,
  row_under_lock, is_same_note,
}
use rubric_grading_engine.Resolutions.Outcome.{rescore_log}
use rubric_grading_engine.Resolutions.Terminal.{approval_effect, resolve_once}
use rubric_grading_engine.Resolutions.Stale.{both_resolve}
use rubric_grading_engine.Assignments.{
  Changes, next_status, validate_transition, new_status, new_tone, update_assignment,
}
use rubric_grading_engine.Assignments.Lifecycle.{Advance, here, next, validate_transition_iff}
use rubric_grading_engine.Examples.Data.{db, grade, score, assignment, request}

abbrev settings : Settings
settings = record { window_days = 14; max_per_grade = 2 }

abbrev submission : Submission
submission = record { dispute_text = "Again"; criterion_score_id = some 6 }

abbrev second_request : RegradeRequest
second_request = new_request 88 5 7 submission

abbrev requested_db : Db
requested_db = record db { regrade_requests = request ∷ second_request ∷ [] }

submitting :
    create_regrade_request settings 2000 88 db 5 7 submission ≡ ok (requested_db, second_request)
unfolding create_regrade_request load_grade_tenant_scoped owner_of_grade assignment_of_version
    assignment_of_essay owner_of_assignment get_where get check_criterion
submitting = refl

create_iff_example :
    (create_regrade_request settings 2000 88 db 5 7 submission ≡ ok (requested_db, second_request))
    ↔ ((grade : Grade) × Accepted settings 2000 88 db 5 7 submission requested_db second_request
          grade)
create_iff_example = create_iff settings 2000 88 db 5 7 submission requested_db second_request

one_request : WithinLimit settings db.regrade_requests
one_request g = ground arith

create-WithinLimit_example : WithinLimit settings requested_db.regrade_requests
create-WithinLimit_example =
    create-WithinLimit settings 2000 88 db 5 7 submission requested_db second_request one_request
      submitting

abbrev denial : Decision
denial = record { resolution = deny; resolution_note = some "No"; new_criterion_score = none }

abbrev approval : Decision
approval = record {
  resolution = approve;
  resolution_note = none;
  new_criterion_score = some (pos 9);
}

abbrev plain_approval : Decision
plain_approval = record { resolution = approve; resolution_note = none; new_criterion_score = none }

abbrev denied_db : Db
denied_db = record db {
  regrade_requests = resolved 2000 denial request ∷ [];
  audit_logs = resolution_log 7 denial request ∷ [];
}

denying : resolve_regrade_request 2000 db 8 7 denial ≡ ok (denied_db, resolved 2000 denial request)
unfolding resolve_regrade_request resolve_loaded load_request_tenant_scoped owner_of_request
    owner_of_grade assignment_of_version assignment_of_essay owner_of_assignment get_where get put
    check_decision is_blank apply_decision flush_request row_under_lock is_same_note
denying = refl

denying_loaded :
    resolve_loaded 2000 db request 7 denial ≡ ok (denied_db, resolved 2000 denial request)
unfolding resolve_loaded get put check_decision is_blank apply_decision flush_request row_under_lock
    is_same_note
denying_loaded = refl

resolve_once_example : resolve_regrade_request 3000 denied_db 8 7 approval ≡ err conflict
resolve_once_example =
    resolve_once 2000 db 8 7 denial denied_db (resolved 2000 denial request) 3000 approval denying

request_found : get 8 db.regrade_requests ≡ some request
unfolding get
request_found = refl

abbrev approved_db : Db
approved_db = record db {
  grades = record grade { total_score = pos 4 } ∷ [];
  criterion_scores = rescore (pos 9) score ∷ [];
  regrade_requests = resolved 2000 approval request ∷ [];
  audit_logs = rescore_log 7 (pos 9) score ∷ resolution_log 7 approval request ∷ [];
}

approving :
    resolve_loaded 2000 db request 7 approval ≡ ok (approved_db, resolved 2000 approval request)
unfolding resolve_loaded get get_where put check_decision is_blank apply_decision apply_new_score
    check_grade check_against_snapshot check_new_score criterion_of assignment_of_version
    assignment_of_essay sum_final ◌+ℤ◌ flush_request row_under_lock is_same_note
approving = refl

approval_effect_example :
    (c : ℕ) × (x : CriterionScore) × (some 6 ≡ some c)
    × (get c db.criterion_scores ≡ some x)
    × (x.grade_id ≡ 5)
    × (get c approved_db.criterion_scores ≡ some (rescore (pos 9) x))
    × ((k : ℕ) → k ≢ c → get k approved_db.criterion_scores ≡ get k db.criterion_scores)
    × (approved_db.audit_logs
        ≡ (db.audit_logs ++ rescore_log 7 (pos 9) x ∷ []) ++ resolution_log 7 approval request ∷ [])
approval_effect_example =
    approval_effect 2000 db request 7 approval approved_db (resolved 2000 approval request)
      approving (pos 9) refl refl

valid_denial : check_decision request denial ≡ ok tt
unfolding check_decision is_blank
valid_denial = refl

valid_approval : check_decision request plain_approval ≡ ok tt
unfolding check_decision is_blank
valid_approval = refl

both_resolve_example :
    (db₁ : Db) × (db₂ : Db) × (last : RegradeRequest) × (resolve_loaded 2000 db request 7 denial
      ≡ ok (db₁, resolved 2000 denial request))
    × (resolve_loaded 2001 db₁ request 7 plain_approval ≡ ok (db₂, last))
    × (get 8 db₁.regrade_requests ≡ some (resolved 2000 denial request))
    × (get 8 db₂.regrade_requests ≡ some last)
    × (last.status ≡ approved)
    × (last.resolved_at ≡ some 2001)
    × (plain_approval.resolution_note ≡ request.resolution_note
        → last.resolution_note ≡ denial.resolution_note)
    × (plain_approval.resolution_note ≢ request.resolution_note
        → last.resolution_note ≡ plain_approval.resolution_note)
    × (db₂.audit_logs
        ≡ (db.audit_logs ++ resolution_log 7 denial request ∷ [])
          ++ resolution_log 7 plain_approval request ∷ [])
both_resolve_example =
    both_resolve 2000 2001 db request 7 7 denial plain_approval request_found valid_denial
      valid_approval refl refl

abbrev path : Advance AssignmentStatus.open_ AssignmentStatus.review
path =
    next
      (next here ((validate_transition_iff AssignmentStatus.open_ AssignmentStatus.grading).1 refl))
      ((validate_transition_iff AssignmentStatus.grading AssignmentStatus.review).1 refl)

abbrev changes : Changes
changes = record {
  title = some "Essay 1";
  prompt = none;
  due_date = none;
  status = some AssignmentStatus.grading;
  feedback_tone = none;
  resubmission_enabled = none;
}

abbrev moved : Assignment
moved = record assignment { title = "Essay 1"; status = AssignmentStatus.grading }

abbrev moved_db : Db
moved_db = record db { assignments = moved ∷ [] }

updating : update_assignment db 7 2 changes ≡ ok (moved_db, moved)
unfolding update_assignment get_assignment owner_of_assignment new_status validate_transition
    next_status new_tone get put
updating = refl
