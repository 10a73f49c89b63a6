-- ===== src/Progress/Runs.antt =====
-- The life of a batch's hash in orderly runs: the events that the tasks and the retry endpoint cause,
-- as long as no task starts on an essay with an outcome and no report contradicts one. The code does
-- not check this; Progress/Redelivery has what happens otherwise.
use rubric_grading_engine.Prelude.{ℕ, String, ◌≡◌, false, Option, some, List}
use rubric_grading_engine.Progress.{
  Status, complete, failed, is, Hash, status_of, initialize_progress, mark_essay_grading,
  mark_essay_complete, mark_essay_failed, reset_essay_for_retry,
}
use rubric_grading_engine.Progress.Counts.{is_terminal}
use rubric_grading_engine.Progress.Initial.{IsAccurate, Distinct, initialize_progress-IsAccurate}
use rubric_grading_engine.Progress.Marks.{
  mark_essay_grading-IsAccurate, mark_essay_complete-Accurate, mark_essay_failed-Accurate,
  reset_essay_for_retry-Accurate,
}

-- One event of an orderly run, on a hash that is there. A task starts on an essay with no outcome; it
-- reports a success of an essay that has not failed, or a failure of one that is not complete; anyone
-- may retry. The conditions are those of the run, not of the functions that mark the essay.
pub data Step (h : Hash) (h' : Hash) : Type 0 where
  start :
      (e : ℕ) (old : Status)
      → status_of e h.items ≡ some old
      → is_terminal old ≡ false
      → mark_essay_grading e (some h) ≡ h'
      → Step h h'
  succeed :
      (e : ℕ) (old : Status)
      → status_of e h.items ≡ some old
      → is failed old ≡ false
      → (mark_essay_complete e (some h)).0 ≡ some h'
      → Step h h'
  give_up :
      (e : ℕ) (code : String) (old : Status)
      → status_of e h.items ≡ some old
      → is complete old ≡ false
      → (mark_essay_failed e code (some h)).0 ≡ some h'
      → Step h h'
  retry : (e : ℕ) → reset_essay_for_retry e (some h) ≡ some h' → Step h h'

pub data Run (h : Hash) : Hash → Type 0 where
  here : Run h h
  next : {h' h'' : Hash} → Run h h' → Step h' h'' → Run h h''

Step-IsAccurate : (h h' : Hash) → Step h h' → IsAccurate h → IsAccurate h'
Step-IsAccurate h h' (start e old at pending eq) acc =
    rw (← eq) (mark_essay_grading-IsAccurate e h old acc at pending)
Step-IsAccurate h h' (succeed e old at fresh eq) acc =
    rw eq at (mark_essay_complete-Accurate e h old acc at fresh)
Step-IsAccurate h h' (give_up e code old at fresh eq) acc =
    rw eq at (mark_essay_failed-Accurate e h old acc at code fresh)
Step-IsAccurate h h' (retry e eq) acc = rw eq at (reset_essay_for_retry-Accurate e h acc)

Run-IsAccurate : (h : Hash) {h' : Hash} → IsAccurate h → Run h h' → IsAccurate h'
Run-IsAccurate h acc here = acc
Run-IsAccurate h acc (next {h' = a} {h'' = b} r st) =
    Step-IsAccurate a b st (Run-IsAccurate h acc r)

-- In a batch of distinct essays: after any number of starts, reports and retries, in which each start
-- is of an essay without an outcome, each success of an essay that is not failed, and each failure of
-- one that is not complete, the counters of the hash are the numbers of complete and of failed essays,
-- and the total the number of essays. Retries may come at any time.
pub batch-IsAccurate :
    (essays : List (ℕ × Option String)) {h : Hash}
    → Distinct essays
    → Run (initialize_progress essays) h
    → IsAccurate h
batch-IsAccurate essays d r =
    Run-IsAccurate (initialize_progress essays) (initialize_progress-IsAccurate essays d).0 r
