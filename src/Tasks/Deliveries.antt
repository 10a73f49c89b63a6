-- ===== src/Tasks/Deliveries.antt =====
-- How a failure of the service passes through a delivery of a task, and what the revert does.
use rubric_grading_engine.Prelude.{
  ℕ, String, ◌≡◌, refl, ap, ◌∙◌, Bool, true, false, Option, none, some, List, map, arith,
}
use rubric_grading_engine.Prelude.Results.{Error, conflict, grading_in_progress, Result, ok, err}
use rubric_grading_engine.Prelude.Tables.{get, get_where, key-get, get-put}
use rubric_grading_engine.Models.{Essay, EssayStatus, queued, Grade, essay_row}
use rubric_grading_engine.Models.Store.{
  Db, load_essay_tenant_scoped, load_essay_iff, owner_of_essay, owner_of_assignment,
}
use rubric_grading_engine.Parsing.Grading.{CriterionInfo, ParsedGradingResponse}
use rubric_grading_engine.Progress.{Hash, Counters, mark_essay_grading, mark_essay_failed}
use rubric_grading_engine.Grades.{latest_version}
use rubric_grading_engine.Grading.{
  Uuids, NewIds, Job, prepare, set_status, check_queued, grade_essay, info_of,
}
use rubric_grading_engine.Grading.Writes.{prepare-inverse, get-set_status}
use rubric_grading_engine.Batch.{World, Task, write_hash, is_queued, retry_essay_grading}
use rubric_grading_engine.Tasks.{
  Service, Delivery, clause_of, best_effort, report, update_redis_on_failure, fail_task, handle,
  run_grade_essay, grade_task, revert_essay_to_queued, transition_assignment_to_review,
}

pub load_in_grading :
    (db : Db) (e t : ℕ) (essay : Essay)
    → load_essay_tenant_scoped db e t ≡ ok essay
    → load_essay_tenant_scoped (set_status db EssayStatus.grading essay) e t
      ≡ ok (record essay { status = EssayStatus.grading })
unfolding owner_of_essay
load_in_grading db e t essay loaded =
    let (there, owned) = (load_essay_iff db e t essay).0 loaded in
    let db' = set_status db EssayStatus.grading essay in
    let essay' = record essay { status = EssayStatus.grading } in
    (load_essay_iff db' e t essay').1 (
      get-set_status db e EssayStatus.grading essay essay there (key-get e essay db.essays there),
      owned,
    )

-- Once an essay was prepared and marked, another preparation is refused.
pub prepare_in_grading :
    (db : Db) (e t : ℕ) (strictness : String) (job : Job)
    → prepare db e t strictness ≡ ok job
    → prepare (set_status db EssayStatus.grading job.essay) e t strictness ≡ err grading_in_progress
unfolding prepare check_queued latest_version owner_of_assignment
prepare_in_grading db e t strictness job h =
    let p = prepare-inverse db e t strictness job h in
    let again = load_in_grading db e t job.essay p.loaded in
    rw (p.level, again, p.version, p.assignment) refl

mark-db :
    (b : Bool) (a : Option ℕ) (e : ℕ) (w : World)
    → (best_effort b a (λ a w. write_hash a (some (mark_essay_grading e (w.redis a))) w) w).db
      ≡ w.db
mark-db false a e w = refl
mark-db true none e w = refl
mark-db true (some a) e w = refl

-- A service that fails: the run fails with the same error, and the database that the service left.
pub run-err :
    (service : Service) (d : Delivery) (task : Task) (w : World) (x : Error) (db : Db)
    → service w.db task.essay_id task.teacher_id task.strictness ≡ (err x, db)
    → (w' : World) × (run_grade_essay service d task w ≡ (err x, w')) × (w'.db ≡ db)
unfolding run_grade_essay
run-err service d task w x db h =
    let e = task.essay_id in
    let w₁ =
      best_effort d.redis_at_start task.assignment_id
        (λ a w. write_hash a (some (mark_essay_grading e (w.redis a))) w) w in
    let same : service w₁.db e task.teacher_id task.strictness ≡ (err x, db) =
      ap (λ b. service b e task.teacher_id task.strictness)
        (mark-db d.redis_at_start task.assignment_id e w)
      ∙ h in
    let left : Result Grade × Db → Result Grade × World = λ o. (err x, record w₁ { db = o.1 }) in
    (record w₁ { db = db }, rw (same, run_grade_essay) (ap left same), refl)

pub call_failed :
    (u : Uuids) (ids : NewIds) (now : ℕ) (prompt : String)
    (call : List CriterionInfo → Result ParsedGradingResponse) (db : Db) (e t : ℕ)
    (strictness : String) (job : Job) (x : Error)
    → prepare db e t strictness ≡ ok job
    → call (map (info_of u) job.assignment.rubric_snapshot.criteria) ≡ err x
    → grade_essay u ids now prompt call db e t strictness
      ≡ (err x, set_status db EssayStatus.grading job.essay)
unfolding grade_essay
call_failed u ids now prompt call db e t strictness job x prepared failed = ground arith

pub refused_call :
    (u : Uuids) (ids : NewIds) (now : ℕ) (prompt : String)
    (call : List CriterionInfo → Result ParsedGradingResponse) (db : Db) (e t : ℕ)
    (strictness : String) (x : Error)
    → prepare db e t strictness ≡ err x
    → grade_essay u ids now prompt call db e t strictness ≡ (err x, db)
unfolding grade_essay
refused_call u ids now prompt call db e t strictness x refused = ground arith

pub task-err :
    (service : Service) (d : Delivery) (task : Task) (w w' : World) (x : Error)
    → run_grade_essay service d task w ≡ (err x, w')
    → grade_task service d task w ≡ handle d task x (clause_of x) w'
unfolding grade_task
task-err service d task w w' x h = ground arith

pub retry_refused :
    (redis_up : Bool) (broker : Option ℕ) (w : World) (e t : ℕ) (strictness : String)
    (essay : Essay)
    → load_essay_tenant_scoped w.db e t ≡ ok essay
    → is_queued essay.status ≡ false
    → (retry_essay_grading redis_up broker w e t strictness).0 ≡ err conflict
unfolding retry_essay_grading
retry_refused redis_up broker w e t strictness essay loaded busy = ground arith

transition-essays :
    (db : Db) (a t : ℕ) → (transition_assignment_to_review db a t).essays ≡ db.essays
unfolding transition_assignment_to_review
transition-essays db a t = ground arith

report-essays :
    (a t : ℕ) (m : Option Hash × Counters) (w : World) → (report a t m w).db.essays ≡ w.db.essays
unfolding report
report-essays a t (h, c) w = ground (arith, transition-essays w.db a t)

best_effort-essays :
    (b : Bool) (a : Option ℕ) (f : ℕ → World → World) (w : World)
    → ((k : ℕ) (v : World) → (f k v).db.essays ≡ v.db.essays)
    → (best_effort b a f w).db.essays ≡ w.db.essays
best_effort-essays false a f w h = refl
best_effort-essays true none f w h = refl
best_effort-essays true (some a) f w h = h a w

pub fail_task-essays :
    (d : Delivery) (task : Task) (code : String) (w : World)
    → (fail_task d task code w).db.essays
      ≡ (revert_essay_to_queued w.db task.essay_id task.teacher_id).essays
unfolding fail_task update_redis_on_failure
fail_task-essays d task code w =
    best_effort-essays d.redis_at_end task.assignment_id
      (λ a. update_redis_on_failure task.essay_id a task.teacher_id code)
      (record w { db = revert_essay_to_queued w.db task.essay_id task.teacher_id })
      (λ a v. report-essays a task.teacher_id (mark_essay_failed task.essay_id code (v.redis a)) v)

pub revert-queued :
    (db : Db) (e t : ℕ) (essay : Essay)
    → load_essay_tenant_scoped db e t ≡ ok essay
    → essay.status ≡ EssayStatus.grading
    → get e (revert_essay_to_queued db e t).essays ≡ some (record essay { status = queued })
unfolding revert_essay_to_queued load_essay_tenant_scoped get_where
revert-queued db e t essay loaded status =
    let (there, owned) = (load_essay_iff db e t essay).0 loaded in
    ground (
      arith,
      get-put e (record essay { status = queued }) db.essays,
      key-get e essay db.essays there,
    )
