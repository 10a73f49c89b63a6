-- ===== src/Batch/Trigger.antt =====
-- What a trigger sends and writes, and what it leaves behind when a service fails.
use rubric_grading_engine.Prelude.{
  ℕ, ◌<◌, String, ◌≡◌, ◌⊎◌, inl, inr, Bool, true, Option, some, List, ◌++◌, map, arith, Bool-cases,
  length, select, All,
}
use rubric_grading_engine.Prelude.Results.{Error, outage, ok, err, >>=-eq-ok, Result-cases}
use rubric_grading_engine.Prelude.Tables.{get, key-get, get-put}
use rubric_grading_engine.Models.{Assignment, AssignmentStatus, Essay, assignment_row}
use rubric_grading_engine.Models.Store.{Db, get_assignment}
use rubric_grading_engine.Progress.{initialize_progress}
use rubric_grading_engine.Progress.Initial.{IsAccurate, Distinct, initialize_progress-IsAccurate}
use rubric_grading_engine.Assignments.Update.{get_assignment_iff}
use rubric_grading_engine.Batch.{
  World, Task, is_gradeable, is_in_batch, pair_of, task_of, enqueue_all, start_grading,
  select_batch, trigger_batch_grading, is_open,
}
use rubric_grading_engine.Batch.Selection.{
  InBatch, UniqueIds, select-All, select-UniqueIds, pairs-Distinct, enqueue_all-ok, enqueue_all-err,
}

select_batch-inverse :
    (db : Db) (a t : ℕ) (essay_ids : Option (List ℕ)) (found : Assignment) (rows : List Essay)
    → select_batch db a t essay_ids ≡ ok (found, rows)
    → (get_assignment db t a ≡ ok found)
      × (is_gradeable found.status ≡ true)
      × (rows ≡ select (is_in_batch db a t essay_ids) db.essays)
      × (0 < length rows)
unfolding select_batch
select_batch-inverse db a t essay_ids found rows h =
    let (x, loaded, rest) = >>=-eq-ok (get_assignment db t a) _ h in
    let is : x ≡ found = ground arith in
    (rw (← is) loaded, ground arith, ground arith, ground arith)

is_open_iff : (s : AssignmentStatus) → (is_open s ≡ true) → s ≡ AssignmentStatus.open_
is_open_iff s h = ground arith

start_grading-get :
    (a : ℕ) (found : Assignment) (db : Db)
    → get a db.assignments ≡ some found
    → is_gradeable found.status ≡ true
    → get a (start_grading found db).assignments
      ≡ some (record found { status = AssignmentStatus.grading })
unfolding start_grading
start_grading-get a found db there fit = ground (
  arith,
  get-put a (record found { status = AssignmentStatus.grading }) db.assignments,
  key-get a found db.assignments there,
)

module _ (redis_up : Bool) (broker : Option ℕ) (w : World) (a t : ℕ) (essay_ids : Option (List ℕ))
    (strictness : String) (w' : World) where
  -- What a successful trigger did, with `rows` the essays it selected.
  pub record Triggered (n : ℕ) (rows : List Essay) (found : Assignment) : Type 0 where
    pub selected : rows ≡ select (is_in_batch w.db a t essay_ids) w.db.essays
    pub counted : (n ≡ length rows) × (0 < n)
    pub in_batch : All (InBatch w.db a t essay_ids) rows
    pub sent : w'.queue ≡ w.queue ++ map (task_of t strictness a) rows
    pub hash : w'.redis a ≡ some (initialize_progress (map (pair_of w.db) rows))
    pub accurate : IsAccurate (initialize_progress (map (pair_of w.db) rows))
    pub loaded : get_assignment w.db t a ≡ ok found
    pub now_grading :
        get a w'.db.assignments ≡ some (record found { status = AssignmentStatus.grading })

  -- A trigger that succeeds has sent one task for each selected essay, all of which wait in the
  -- teacher's assignment, and returns how many, at least one; the hash is new and accurate, and the
  -- assignment is in grading. The essays' ids must be distinct.
  pub trigger_success :
      (n : ℕ)
      → UniqueIds w.db.essays
      → trigger_batch_grading redis_up broker w a t essay_ids strictness ≡ (ok n, w')
      → (rows : List Essay) × (found : Assignment) × Triggered n rows found
  unfolding trigger_batch_grading
  trigger_success n unique h = elim (Result-cases (select_batch w.db a t essay_ids)) [
    | inr (x, bad) ↦ absurd (ground arith)
    | inl ((found, rows), chosen) ↦
        let (loaded, fit, is, some_) = select_batch-inverse w.db a t essay_ids found rows chosen in
        let tasks = map (task_of t strictness a) rows in
        let up : redis_up ≡ true = ground arith in
        elim (Result-cases (enqueue_all broker tasks).0) [
          | inr (x, bad) ↦ absurd (ground arith)
          | inl (_, good) ↦
              let all = enqueue_all-ok broker tasks (enqueue_all broker tasks).1 (ground arith) in
              let distinct : Distinct (map (pair_of w.db) rows) = rw is (
                pairs-Distinct w.db _
                  (select-UniqueIds (is_in_batch w.db a t essay_ids) w.db.essays unique)) in
              let db : w'.db ≡ start_grading found w.db = ground arith in
              (
                rows,
                found,
                record {
                  selected = is;
                  counted = (ground arith, ground arith);
                  in_batch = rw is (select-All w.db a t essay_ids w.db.essays);
                  sent = ground (arith, all);
                  hash = ground arith;
                  accurate = (initialize_progress-IsAccurate (map (pair_of w.db) rows) distinct).0;
                  loaded = loaded;
                  now_grading = rw db (
                      start_grading-get a found w.db
                        ((get_assignment_iff w.db t a found).0 loaded).0 fit);
                },
              )
        ]
  ]

  -- A trigger that fails leaves the database as it was. It leaves everything as it was, unless the
  -- broker failed after a part of the tasks was sent: the sent tasks then stay in the queue, and the
  -- hash stays too, which counts all the selected essays.
  pub trigger_failure :
      (x : Error)
      → trigger_batch_grading redis_up broker w a t essay_ids strictness ≡ (err x, w')
      → (w'.db ≡ w.db)
        × ((w' ≡ w)
            ⊎ ((x ≡ outage)
                × ((rows : List Essay) × (sent : List Task) × (rest : List Task) × (w'.redis a
                      ≡ some (initialize_progress (map (pair_of w.db) rows)))
                    × (w'.queue ≡ w.queue ++ sent)
                    × (map (task_of t strictness a) rows ≡ sent ++ rest)
                    × (0 < length rest))))
  unfolding trigger_batch_grading
  trigger_failure x h = elim (Result-cases (select_batch w.db a t essay_ids)) [
    | inr (y, bad) ↦ (ground arith, inl (ground arith))
    | inl ((found, rows), chosen) ↦
        let tasks = map (task_of t strictness a) rows in
        elim (Bool-cases redis_up) [
          | inr down ↦ (ground arith, inl (ground arith))
          | inl up ↦ elim (Result-cases (enqueue_all broker tasks).0) [
            | inl (_, good) ↦ absurd (ground arith)
            | inr (y, bad) ↦
                let sent = (enqueue_all broker tasks).1 in
                let (out, (rest, split, some_)) =
                  enqueue_all-err broker tasks sent y (ground arith) in
                (
                  ground arith,
                  inr (ground arith, (rows, sent, rest, ground arith, ground arith, split, some_)),
                )
          ]
        ]
  ]
