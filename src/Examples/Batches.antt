-- ===== src/Examples/Batches.antt =====
-- The theorems on the progress hash, the batches and the tasks, on the data of Examples/Data.
use rubric_grading_engine.Prelude.{
  ℕ, ◌+◌, String, ◌≡◌, refl, ◌↔◌, true, Option, none, some, List, [], ◌∷◌, map, arith, ◌==◌,
  if◌then◌else◌,
}
use rubric_grading_engine.Prelude.Int.{pos, ◌+ℤ◌}
use rubric_grading_engine.Prelude.Results.{outage, ok, err}
use rubric_grading_engine.Prelude.Tables.{get, put}
use rubric_grading_engine.Models.{
  AssignmentStatus, Assignment, Essay, class_row, student_row, assignment_row, essay_row,
  version_row,
}
use rubric_grading_engine.Models.Store.{
  owner_of_assignment, owner_of_essay, assignment_of_essay, get_assignment,
}
use rubric_grading_engine.Progress.{
  Status, grading, complete, failed, Item, Hash, BatchProgress, status_of, set_status, enter,
  enter_all, initialize_progress, mark_essay_grading, mark_essay_complete, mark_in, complete_in,
  get_progress, read_item,
}
use rubric_grading_engine.Progress.Counts.{count_status, AllTerminal}
use rubric_grading_engine.Progress.Initial.{IsAccurate, Distinct}
use rubric_grading_engine.Progress.Runs.{Run, here, next, start, succeed, batch-IsAccurate}
use rubric_grading_engine.Progress.Redelivery.{redelivery_forgets, success_after_failure}
use rubric_grading_engine.Batch.{
  World, Task, BatchStatus, processing, derive_batch_status, trigger_batch_grading, select_batch,
  enqueue_all, start_grading, student_name, is_in_batch,
}
use rubric_grading_engine.Batch.Status.{AllAre, derive_batch_status_iff}
use rubric_grading_engine.Batch.Selection.{UniqueIds}
use rubric_grading_engine.Batch.Trigger.{Triggered, trigger_success}
use rubric_grading_engine.Examples.Data.{db, essay, assignment}

abbrev pairs : List (ℕ × Option String)
pairs = (3, some "Ada") ∷ (13, none) ∷ []

distinct : Distinct pairs
distinct = ((ground arith, tt), (tt, tt))

abbrev item : ℕ → Status → String → Item
item e st name = record { id = e; status = st; name = some name; error = some "" }

abbrev hash : Status → Status → ℕ → ℕ → Hash
hash a b c f = record {
  total = some 2;
  complete = some (pos c);
  failed = some (pos f);
  items = item 3 a "Ada" ∷ item 13 b "" ∷ [];
}

new_hash : initialize_progress pairs ≡ hash Status.queued Status.queued 0 0
unfolding initialize_progress enter_all enter
new_hash = refl

run : Run (initialize_progress pairs) (hash complete Status.queued 1 0)
unfolding initialize_progress enter_all enter mark_essay_grading mark_essay_complete mark_in
    complete_in status_of set_status ◌+ℤ◌
run =
    next
      (next {h' = hash Status.queued Status.queued 0 0} {h'' = hash grading Status.queued 0 0} here
        (start 3 Status.queued refl refl refl))
      (succeed 3 grading refl refl refl)

batch-IsAccurate_example : IsAccurate (hash complete Status.queued 1 0)
batch-IsAccurate_example = batch-IsAccurate pairs distinct run

abbrev done_hash : Hash
done_hash = hash complete failed 1 1

done-IsAccurate : IsAccurate done_hash
unfolding count_status
done-IsAccurate = record { of_total = refl; of_complete = refl; of_failed = refl }

complete_at : status_of 3 done_hash.items ≡ some complete
unfolding status_of
complete_at = refl

failed_at : status_of 13 done_hash.items ≡ some failed
unfolding status_of
failed_at = refl

redelivery_forgets_example :
    (status_of 3 (mark_essay_grading 3 (some done_hash)).items ≡ some grading)
    × ((mark_essay_grading 3 (some done_hash)).complete
        ≡ some (pos (count_status complete (mark_essay_grading 3 (some done_hash)).items + 1)))
    × (¬ IsAccurate (mark_essay_grading 3 (some done_hash)))
redelivery_forgets_example = redelivery_forgets 3 done_hash done-IsAccurate complete_at

success_after_failure_example :
    let again = mark_essay_complete 13 (some done_hash) in
    let items = set_status 13 complete done_hash.items in
    (again.1.complete +ℤ again.1.failed
      ≡ pos (count_status complete items + count_status failed items + 1))
    × (again.0 ≡ some (record done_hash { items = items; complete = some again.1.complete }))
success_after_failure_example = success_after_failure 13 done_hash done-IsAccurate failed_at

abbrev progress : BatchProgress
progress = record {
  total = 2;
  complete = pos 1;
  failed = pos 1;
  essays = map read_item done_hash.items;
}

read_done : get_progress (some done_hash) ≡ some progress
unfolding get_progress
read_done = refl

derive_batch_status_iff_example :
    ((derive_batch_status progress ≡ processing) ↔ (¬ AllTerminal done_hash.items))
    × ((derive_batch_status progress ≡ BatchStatus.complete) ↔ AllAre complete done_hash.items)
    × ((derive_batch_status progress ≡ BatchStatus.failed) ↔ AllAre failed done_hash.items)
derive_batch_status_iff_example =
    derive_batch_status_iff done_hash progress done-IsAccurate (omega arith) read_done

abbrev world : World
world = record { db = db; redis = λ a. none; queue = [] }

abbrev sent : Task
sent = record { essay_id = 3; teacher_id = 7; strictness = "strict"; assignment_id = some 2 }

abbrev triggered : World
triggered = record {
  db = record db { assignments = record assignment { status = AssignmentStatus.grading } ∷ [] };
  redis =
      λ b. if b == 2 then some (initialize_progress ((3, student_name db essay) ∷ [])) else none;
  queue = sent ∷ [];
}

triggering : trigger_batch_grading true none world 2 7 none "strict" ≡ (ok 1, triggered)
unfolding trigger_batch_grading select_batch is_in_batch owner_of_essay assignment_of_essay
    owner_of_assignment get_assignment get put enqueue_all start_grading
triggering = refl

unique : UniqueIds db.essays
unique = ((ground arith, tt), (tt, tt))

trigger_success_example :
    (rows : List Essay) × (found : Assignment) × Triggered true none world 2 7 none "strict"
      triggered 1 rows found
trigger_success_example =
    trigger_success true none world 2 7 none "strict" triggered 1 unique triggering

abbrev half_triggered : World
half_triggered = record world {
  redis =
      λ b. if b == 2 then some (initialize_progress ((3, student_name db essay) ∷ [])) else none;
}

half_triggering :
    trigger_batch_grading true (some 0) world 2 7 none "strict" ≡ (err outage, half_triggered)
unfolding trigger_batch_grading select_batch is_in_batch owner_of_essay assignment_of_essay
    owner_of_assignment get_assignment get put enqueue_all start_grading
half_triggering = refl

abbrev last_hash : Hash
last_hash = hash grading failed 0 1

last-IsAccurate : IsAccurate last_hash
unfolding count_status
last-IsAccurate = record { of_total = refl; of_complete = refl; of_failed = refl }

abbrev last_world : World
last_world = record triggered { redis = λ b. some last_hash }

grading_at : status_of 3 last_hash.items ≡ some grading
unfolding status_of
grading_at = refl

abbrev named : ℕ
named = 2
