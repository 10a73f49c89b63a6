-- ===== src/Progress/Redelivery.antt =====
-- What the marks do when a task is delivered again after its essay had an outcome.
use rubric_grading_engine.Prelude.{ℕ, ◌+◌, ◌≡◌, ap, ◌∙◌, some, arith}
use rubric_grading_engine.Prelude.Int.{pos, ◌+ℤ◌}
use rubric_grading_engine.Progress.{
  grading, complete, failed, Hash, status_of, set_status, mark_essay_grading, mark_essay_complete,
}
use rubric_grading_engine.Progress.Counts.{
  count_status, count_status-set_status, status_of-set_status,
}
use rubric_grading_engine.Progress.Initial.{IsAccurate}

module _ (e : ℕ) (h : Hash) (acc : IsAccurate h) where
  -- In an accurate hash, a task delivered again after its success first marks its essay as grading:
  -- the essay is then shown as grading while the counter still holds it as complete, and the hash
  -- is not accurate.
  pub redelivery_forgets :
      status_of e h.items ≡ some complete
      → (status_of e (mark_essay_grading e (some h)).items ≡ some grading)
        × ((mark_essay_grading e (some h)).complete
            ≡ some (pos (count_status complete (mark_essay_grading e (some h)).items + 1)))
        × (¬ IsAccurate (mark_essay_grading e (some h)))
  unfolding mark_essay_grading
  redelivery_forgets at =
      let fewer = count_status-set_status complete e grading complete h.items at in
      let shown : h.complete
          ≡ some (pos (count_status complete (set_status e grading h.items) + 1)) =
        acc.of_complete ∙ ap some (ap pos (omega (arith, fewer))) in
      (ground (arith, status_of-set_status e e grading h.items), shown, λ again. ground arith)

  -- When a complete essay of an accurate hash is marked as grading again and a success is reported
  -- for it again, it is counted twice: the counter is one more than the number of complete essays.
  pub redelivery_inflates :
      status_of e h.items ≡ some complete
      → let again = mark_essay_complete e (some (mark_essay_grading e (some h))) in
        (again.1.complete ≡ pos (count_status complete h.items + 1))
        × (again.0
            ≡ some (record h {
              items = set_status e complete (set_status e grading h.items);
              complete = some (pos (count_status complete h.items + 1));
            }))
        × (count_status complete (set_status e complete (set_status e grading h.items))
            ≡ count_status complete h.items)
  unfolding mark_essay_grading mark_essay_complete ◌+ℤ◌
  redelivery_inflates at =
      let mid = status_of-set_status e e grading h.items in
      let there : status_of e (set_status e grading h.items) ≡ some grading = ground arith in
      let fewer = count_status-set_status complete e grading complete h.items at in
      let more =
        count_status-set_status complete e complete grading (set_status e grading h.items) there in
      (ground arith, ground arith, omega arith)

  -- A success reported for an essay of an accurate hash that has failed is counted beside the
  -- failure: the two counters add up to one more than the number of essays that have an outcome.
  pub success_after_failure :
      status_of e h.items ≡ some failed
      → let again = mark_essay_complete e (some h) in
        let items = set_status e complete h.items in
        (again.1.complete +ℤ again.1.failed
          ≡ pos (count_status complete items + count_status failed items + 1))
        × (again.0 ≡ some (record h { items = items; complete = some again.1.complete }))
  unfolding mark_essay_complete ◌+ℤ◌
  success_after_failure at =
      let more = count_status-set_status complete e complete failed h.items at in
      let fewer = count_status-set_status failed e complete failed h.items at in
      (ground arith, ground arith)
