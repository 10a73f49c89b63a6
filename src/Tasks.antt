-- ===== src/Tasks.antt =====
-- backend/app/tasks/grading.py: the Celery task that grades one essay, and what it reports to Redis.
-- The grading service is an argument: it is Grading.grade_essay with its own arguments fixed. A task
-- that is retried runs again later with the same arguments and one retry more.
pub mod Review
pub mod Deliveries
pub mod Stuck
use rubric_grading_engine.Prelude.{
  ℕ, zero, suc, ◌*◌, String, Bool, true, false, ◌&&◌, Option, none, some, ltb, if◌then◌else◌,
}
use rubric_grading_engine.Prelude.Int.{pos, ◌+ℤ◌, leb_ℤ}
use rubric_grading_engine.Prelude.Results.{
  Error, forbidden, conflict, grade_locked, grading_in_progress, not_gradeable, rubric_in_use,
  regrade_window_closed, regrade_limit_reached, llm_error, llm_parse_error, Result, ok, err,
}
use rubric_grading_engine.Prelude.Tables.{get_where, put}
use rubric_grading_engine.Models.{
  Assignment, AssignmentStatus, review, Essay, EssayStatus, queued, Grade, assignment_row,
  essay_row,
}
use rubric_grading_engine.Models.Store.{Db, is_owner, owner_of_assignment, owner_of_essay}
use rubric_grading_engine.Progress.{
  Hash, Counters, mark_essay_grading, mark_essay_complete, mark_essay_failed,
}
use rubric_grading_engine.Batch.{World, Task, write_hash}

-- `_is_batch_complete`
unfoldable pub is_batch_complete : Counters → Bool
is_batch_complete c = ltb 0 c.total && leb_ℤ (pos c.total) (c.complete +ℤ c.failed)

abbrev pub in_grading : AssignmentStatus → Bool
in_grading AssignmentStatus.grading = true
in_grading _ = false

-- The conditional UPDATE of `_transition_assignment_to_review`.
unfoldable pub transition_assignment_to_review : Db → ℕ → ℕ → Db
transition_assignment_to_review db a t =
    elim (get_where a
      (λ (x : Assignment). in_grading x.status && is_owner (owner_of_assignment db x) t)
      db.assignments) [
        | none ↦ db
        | some x ↦ record db { assignments = put (record x { status = review }) db.assignments }
      ]

abbrev pub essay_in_grading : EssayStatus → Bool
essay_in_grading EssayStatus.grading = true
essay_in_grading _ = false

-- `_revert_essay_to_queued`
unfoldable pub revert_essay_to_queued : Db → ℕ → ℕ → Db
revert_essay_to_queued db e t =
    elim (get_where e (λ (x : Essay). is_owner (owner_of_essay db x) t) db.essays) [
      | none ↦ db
      | some x ↦
          if essay_in_grading x.status
          then record db { essays = put (record x { status = queued }) db.essays }
          else db
    ]

-- A report to Redis, and the assignment's transition when the batch is done.
unfoldable pub report : ℕ → ℕ → Option Hash × Counters → World → World
unfolding is_batch_complete
report a t (h, c) w =
    let w' = write_hash a h w in
    if is_batch_complete c then record w' { db = transition_assignment_to_review w'.db a t } else w'

-- `_update_redis_on_success`
unfoldable pub update_redis_on_success : ℕ → ℕ → ℕ → World → World
unfolding report
update_redis_on_success e a t w = report a t (mark_essay_complete e (w.redis a)) w

-- `_update_redis_on_failure`
unfoldable pub update_redis_on_failure : ℕ → ℕ → ℕ → String → World → World
unfolding report
update_redis_on_failure e a t code w = report a t (mark_essay_failed e code (w.redis a)) w

-- `if assignment_id`, and Redis answers: its errors are logged and passed over.
abbrev pub best_effort : Bool → Option ℕ → (ℕ → World → World) → World → World
best_effort false a f w = w
best_effort true none f w = w
best_effort true (some a) f w = f a w

-- One delivery of a task: how often it was retried, and whether Redis answers at its start and end.
pub record Delivery : Type 0 where
  pub retries : ℕ
  pub redis_at_start : Bool
  pub redis_at_end : Bool

-- `services.grading.grade_essay`, on the database, an essay, a teacher and a strictness.
abbrev pub Service : Type 0
Service = Db → ℕ → ℕ → String → Result Grade × Db

-- `_run_grade_essay`
unfoldable pub run_grade_essay : Service → Delivery → Task → World → Result Grade × World
run_grade_essay service d task w =
    let e = task.essay_id in
    let t = task.teacher_id in
    let w₁ =
      best_effort d.redis_at_start task.assignment_id
        (λ a w. write_hash a (some (mark_essay_grading e (w.redis a))) w) w in
    let (r, db) = service w₁.db e t task.strictness in
    let w₂ = record w₁ { db = db } in
    elim r [
      | err x ↦ (err x, w₂)
      | ok grade ↦ (
        ok grade,
        best_effort d.redis_at_end task.assignment_id (λ a. update_redis_on_success e a t) w₂,
      )
    ]

-- The `except` clause that an exception reaches, by its class.
pub data Clause : Type 0 where
  forbidden_clause conflict_clause llm_clause other_clause : Clause

unfoldable pub clause_of : Error → Clause
clause_of forbidden = forbidden_clause
clause_of conflict = conflict_clause
clause_of grade_locked = conflict_clause
clause_of grading_in_progress = conflict_clause
clause_of not_gradeable = conflict_clause
clause_of rubric_in_use = conflict_clause
clause_of regrade_window_closed = conflict_clause
clause_of regrade_limit_reached = conflict_clause
clause_of llm_error = llm_clause
clause_of llm_parse_error = llm_clause
clause_of _ = other_clause

-- The end of a delivery. A retry waits for `countdown` seconds.
pub data End : Type 0 where
  succeeded : ℕ → End
  retried : (countdown : ℕ) → End
  raised : Error → End

abbrev pub power_of_two : ℕ → ℕ
power_of_two zero = 1
power_of_two (suc n) = 2 * power_of_two n

abbrev pub max_retries : ℕ
max_retries = 3

-- The essay goes back to the queue, and Redis is told of the failure.
unfoldable pub fail_task : Delivery → Task → String → World → World
fail_task d task code w =
    let w' = record w { db = revert_essay_to_queued w.db task.essay_id task.teacher_id } in
    best_effort d.redis_at_end task.assignment_id
      (λ a. update_redis_on_failure task.essay_id a task.teacher_id code) w'

unfoldable pub handle : Delivery → Task → Error → Clause → World → End × World
unfolding fail_task
handle d task x forbidden_clause w = (raised x, w)
handle d task x conflict_clause w = (raised x, w)
handle d task x llm_clause w =
    if ltb d.retries max_retries
    then (retried (power_of_two d.retries), w)
    else (raised x, fail_task d task "LLM_UNAVAILABLE" w)
handle d task x other_clause w = (raised x, fail_task d task "INTERNAL_ERROR" w)

unfoldable pub grade_task : Service → Delivery → Task → World → End × World
unfolding run_grade_essay handle clause_of
grade_task service d task w =
    let (r, w') = run_grade_essay service d task w in
    elim r [ ok grade ↦ (succeeded grade.id, w') | err x ↦ handle d task x (clause_of x) w' ]
