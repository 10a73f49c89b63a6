-- ===== src/Batch.antt =====
-- backend/app/services/batch_grading.py: a batch of grading tasks for one assignment. Its state is
-- the database, the Redis hash of each assignment (Progress) and the tasks that the broker accepted.
-- Whether Redis answers, and how many tasks the broker accepts before it fails, are arguments.
pub mod Status
pub mod Selection
pub mod Trigger
use rubric_grading_engine.Prelude.{
  ℕ, zero, suc, String, Bool, true, false, not, ◌&&◌, ◌||◌, Option, none, some, List, ◌∷◌, ◌++◌,
  map, ◌==◌, if◌then◌else◌, length, select, [],
}
use rubric_grading_engine.Prelude.Int.{ℤ, pos, ◌+ℤ◌, ltb_ℤ, eq_ℤ}
use rubric_grading_engine.Prelude.Results.{
  conflict, not_gradeable, outage, Result, ok, err, raise_if, ◌>>=◌, ◌>>◌,
}
use rubric_grading_engine.Prelude.Tables.{get, put}
use rubric_grading_engine.Models.{
  Assignment, AssignmentStatus, open_, Essay, EssayStatus, queued, student_row, assignment_row,
}
use rubric_grading_engine.Models.Store.{
  Db, get_assignment, load_essay_tenant_scoped, is_owner, owner_of_essay,
}
use rubric_grading_engine.Progress.{
  Hash, BatchProgress, EssayProgress, initialize_progress, get_progress, reset_essay_for_retry,
}

-- The arguments of one `grade_essay.delay`.
pub record Task : Type 0 where
  pub essay_id : ℕ
  pub teacher_id : ℕ
  pub strictness : String
  pub assignment_id : Option ℕ

pub record World : Type 0 where
  pub db : Db
  pub redis : ℕ → Option Hash
  pub queue : List Task

abbrev pub write_hash : ℕ → Option Hash → World → World
write_hash a h w = record w { redis = λ b. if b == a then h else w.redis b }

abbrev pub is_gradeable : AssignmentStatus → Bool
is_gradeable AssignmentStatus.open_ = true
is_gradeable AssignmentStatus.grading = true
is_gradeable _ = false

abbrev pub is_queued : EssayStatus → Bool
is_queued queued = true
is_queued _ = false

abbrev pub is_listed : ℕ → List ℕ → Bool
is_listed e [] = false
is_listed e (i ∷ ids) = i == e || is_listed e ids

-- `if essay_ids`: no list and an empty list select every essay.
abbrev pub is_selected : Option (List ℕ) → ℕ → Bool
is_selected none e = true
is_selected (some []) e = true
is_selected (some (i ∷ ids)) e = is_listed e (i ∷ ids)

unfoldable pub is_in_batch : Db → ℕ → ℕ → Option (List ℕ) → Essay → Bool
is_in_batch db a t essay_ids e =
    e.assignment_id == a
    && is_queued e.status
    && is_owner (owner_of_essay db e) t
    && is_selected essay_ids e.id

-- The outer join with the students.
unfoldable pub student_name : Db → Essay → Option String
student_name db e = elim e.student_id [
  | none ↦ none
  | some s ↦ elim (get s db.students) [ none ↦ none | some x ↦ some x.full_name ]
]

abbrev pub pair_of : Db → Essay → ℕ × Option String
pair_of db e = (e.id, student_name db e)

abbrev pub task_of : ℕ → String → ℕ → Essay → Task
task_of t strictness a e = record {
  essay_id = e.id;
  teacher_id = t;
  strictness = strictness;
  assignment_id = some a;
}

-- The loop of `delay` calls: all the tasks, or the first `n` and an error.
unfoldable pub enqueue_all : Option ℕ → List Task → Result (Unit {0}) × List Task
enqueue_all none tasks = (ok tt, tasks)
enqueue_all (some n) [] = (ok tt, [])
enqueue_all (some zero) (task ∷ tasks) = (err outage, [])
enqueue_all (some (suc n)) (task ∷ tasks) =
    let (r, sent) = enqueue_all (some n) tasks in (r, task ∷ sent)

abbrev pub is_open : AssignmentStatus → Bool
is_open AssignmentStatus.open_ = true
is_open _ = false

-- `assignment.status = grading`, for an open assignment.
unfoldable pub start_grading : Assignment → Db → Db
start_grading x db =
    if is_open x.status
    then record db {
      assignments = put (record x { status = AssignmentStatus.grading }) db.assignments;
    }
    else db

-- The checks, and the essays that are to be graded.
unfoldable pub select_batch : Db → ℕ → ℕ → Option (List ℕ) → Result (Assignment × List Essay)
unfolding is_in_batch
select_batch db a t essay_ids = do
  found ← get_assignment db t a
  raise_if (not (is_gradeable found.status)) not_gradeable
  let rows = select (is_in_batch db a t essay_ids) db.essays
  raise_if (length rows == 0) not_gradeable
  ok (found, rows)

-- The new status is committed last: an error before that rolls it back, but neither the hash nor the
-- tasks that were sent.
unfoldable pub trigger_batch_grading :
    Bool → Option ℕ → World → ℕ → ℕ → Option (List ℕ) → String → Result ℕ × World
unfolding select_batch enqueue_all start_grading student_name
trigger_batch_grading redis_up broker w a t essay_ids strictness =
    elim (select_batch w.db a t essay_ids) [
      | err x ↦ (err x, w)
      | ok (found, rows) ↦
          if not redis_up
          then (err outage, w)
          else let w' = write_hash a (some (initialize_progress (map (pair_of w.db) rows))) w in
            let (r, sent) = enqueue_all broker (map (task_of t strictness a) rows) in
            let w'' = record w' { queue = w.queue ++ sent } in
            elim r [
              | err x ↦ (err x, w'')
              | ok _ ↦ (ok (length rows), record w'' { db = start_grading found w.db })
            ]
    ]

pub data BatchStatus : Type 0 where
  idle processing complete failed partial : BatchStatus

-- `_derive_batch_status`
unfoldable pub derive_batch_status : BatchProgress → BatchStatus
unfolding ◌+ℤ◌
derive_batch_status p =
    if ltb_ℤ (p.complete +ℤ p.failed) (pos p.total)
    then processing
    else if eq_ℤ p.failed (pos 0)
    then BatchStatus.complete
    else if eq_ℤ p.complete (pos 0)
    then BatchStatus.failed
    else partial

pub record GradingStatusData : Type 0 where
  pub status : BatchStatus
  pub total : ℕ
  pub complete : ℤ
  pub failed : ℤ
  pub essays : List EssayProgress

unfoldable pub get_grading_status : World → ℕ → ℕ → Result GradingStatusData
unfolding derive_batch_status
get_grading_status w a t = do
  found ← get_assignment w.db t a
  elim (get_progress (w.redis a)) [
    | none ↦ ok (record { status = idle; total = 0; complete = pos 0; failed = pos 0; essays = [] })
    | some p ↦ ok (record {
      status = derive_batch_status p;
      total = p.total;
      complete = p.complete;
      failed = p.failed;
      essays = p.essays;
    })
  ]

unfoldable pub retry_essay_grading :
    Bool → Option ℕ → World → ℕ → ℕ → String → Result (Unit {0}) × World
unfolding enqueue_all
retry_essay_grading redis_up broker w e t strictness = elim (load_essay_tenant_scoped w.db e t) [
  | err x ↦ (err x, w)
  | ok essay ↦
      if not (is_queued essay.status)
      then (err conflict, w)
      else if not redis_up
      then (err outage, w)
      else let a = essay.assignment_id in
        let w' = write_hash a (reset_essay_for_retry e (w.redis a)) w in
        let (r, sent) = enqueue_all broker (task_of t strictness a essay ∷ []) in
        (r, record w' { queue = w.queue ++ sent })
]
