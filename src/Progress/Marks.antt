-- ===== src/Progress/Marks.antt =====
-- What each marking script does to an accurate hash.
use rubric_grading_engine.Prelude.{ℕ, String, ◌≡◌, refl, false, Option, none, some, arith}
use rubric_grading_engine.Prelude.Int.{◌+ℤ◌}
use rubric_grading_engine.Progress.{
  Status, queued, grading, complete, failed, is, Hash, status_of, set_status, mark_essay_grading,
  mark_essay_complete, mark_essay_failed, reset_essay_for_retry,
}
use rubric_grading_engine.Progress.Counts.{
  is_terminal, count_status-set_status, length-set_status, status_of-set_status,
  status_of-set_error, count_status-set_error, length-set_error,
}
use rubric_grading_engine.Progress.Initial.{IsAccurate}

-- What a script leaves under the key is accurate; an absent key is not.
abbrev pub Accurate : Option Hash → Type 0
Accurate none = ⊥
Accurate (some h) = IsAccurate h

module _ (e : ℕ) (h : Hash) (old : Status) (acc : IsAccurate h)
    (at : status_of e h.items ≡ some old) where
  -- A task that starts keeps the hash accurate, if its essay has no outcome yet.
  pub mark_essay_grading-IsAccurate :
      is_terminal old ≡ false → IsAccurate (mark_essay_grading e (some h))
  unfolding mark_essay_grading
  mark_essay_grading-IsAccurate pending = ground (
    arith,
    length-set_status e grading old h.items at,
    count_status-set_status complete e grading old h.items at,
    count_status-set_status failed e grading old h.items at,
  )

  -- Marking an essay as complete keeps the hash accurate, unless it has failed.
  pub mark_essay_complete-Accurate :
      is failed old ≡ false → Accurate (mark_essay_complete e (some h)).0
  unfolding mark_essay_complete ◌+ℤ◌
  mark_essay_complete-Accurate fresh = ground (
    arith,
    length-set_status e complete old h.items at,
    count_status-set_status complete e complete old h.items at,
    count_status-set_status failed e complete old h.items at,
  )

  -- Marking an essay as failed keeps the hash accurate, unless it is complete.
  pub mark_essay_failed-Accurate :
      (code : String) → is complete old ≡ false → Accurate (mark_essay_failed e code (some h)).0
  unfolding mark_essay_failed ◌+ℤ◌
  mark_essay_failed-Accurate code fresh = ground (
    arith,
    length-set_error e code (set_status e failed h.items),
    count_status-set_error complete e code (set_status e failed h.items),
    count_status-set_error failed e code (set_status e failed h.items),
    length-set_status e failed old h.items at,
    count_status-set_status complete e failed old h.items at,
    count_status-set_status failed e failed old h.items at,
  )

-- A retry keeps the hash accurate, whatever the status of the essay, listed or not.
pub reset_essay_for_retry-Accurate :
    (e : ℕ) (h : Hash) → IsAccurate h → Accurate (reset_essay_for_retry e (some h))
unfolding reset_essay_for_retry ◌+ℤ◌
reset_essay_for_retry-Accurate e h acc = ground (
  arith,
  length-set_error e "" (set_status e queued h.items),
  count_status-set_error complete e "" (set_status e queued h.items),
  count_status-set_error failed e "" (set_status e queued h.items),
  length-set_status e queued failed h.items,
  count_status-set_status complete e queued failed h.items,
  count_status-set_status failed e queued failed h.items,
)

-- A success reported a second time for the same essay changes neither the hash nor the counters.
pub mark_essay_complete_twice :
    (e : ℕ) (s : Option Hash)
    → let (s', c) = mark_essay_complete e s in mark_essay_complete e s' ≡ (s', c)
unfolding mark_essay_complete
mark_essay_complete_twice e none = refl
mark_essay_complete_twice e (some h) = ground (arith, status_of-set_status e e complete h.items)

-- A failure reported a second time with the same code changes neither the hash nor the counters.
pub mark_essay_failed_twice :
    (e : ℕ) (code : String) (s : Option Hash)
    → let (s', c) = mark_essay_failed e code s in mark_essay_failed e code s' ≡ (s', c)
unfolding mark_essay_failed
mark_essay_failed_twice e code none = refl
mark_essay_failed_twice e code (some h) = ground (
  arith,
  status_of-set_error e e code (set_status e failed h.items),
  status_of-set_status e e failed h.items,
)
