-- ===== src/Tasks/Stuck.antt =====
-- How a task ends whose model call fails: the essay's status in the database commits before the call,
-- so that a retried delivery finds the essay in grading.
use rubric_grading_engine.Prelude.{
  ℕ, ◌≤◌, ◌<◌, String, ◌≡◌, refl, ap, ◌∙◌, ◌⊎◌, inl, inr, Bool, false, Option, List, map, arith,
  ltb,
}
use rubric_grading_engine.Prelude.Results.{Error, conflict, grading_in_progress, Result, ok, err}
use rubric_grading_engine.Prelude.Tables.{get}
use rubric_grading_engine.Models.{EssayStatus, queued, essay_row}
use rubric_grading_engine.Models.Store.{load_essay_iff}
use rubric_grading_engine.Parsing.Grading.{CriterionInfo, ParsedGradingResponse}
use rubric_grading_engine.Grading.{Uuids, NewIds, Job, prepare, set_status, grade_essay, info_of}
use rubric_grading_engine.Grading.Writes.{Shows, prepare-inverse}
use rubric_grading_engine.Batch.{World, Task, retry_essay_grading}
use rubric_grading_engine.Tasks.{
  Delivery, retried, raised, llm_clause, other_clause, clause_of, power_of_two, max_retries,
  fail_task, handle, grade_task,
}
use rubric_grading_engine.Tasks.Deliveries.{
  load_in_grading, prepare_in_grading, run-err, call_failed, refused_call, task-err, retry_refused,
  fail_task-essays, revert-queued,
}

module _ (u : Uuids) (ids : NewIds) (now : ℕ) (prompt : String)
    (call : List CriterionInfo → Result ParsedGradingResponse) (d : Delivery) (task : Task)
    (w : World) (job : Job) (x : Error)
    (prepared : prepare w.db task.essay_id task.teacher_id task.strictness ≡ ok job)
    (failed : call (map (info_of u) job.assignment.rubric_snapshot.criteria) ≡ err x) where
  -- A delivery whose model call fails with an LLM error, and that has a retry left, ends in a retry.
  -- That retry, whatever the model would answer it, raises a GradingInProgressError at once: the
  -- essay stays in grading, and the teacher's own retry is then refused as a conflict.
  pub retried_is_stuck :
      (call' : List CriterionInfo → Result ParsedGradingResponse) (d' : Delivery) (redis_up : Bool)
      (broker : Option ℕ) (strictness : String)
      → clause_of x ≡ llm_clause
      → d.retries < max_retries
      → let (end, w₁) = grade_task (grade_essay u ids now prompt call) d task w in
        let (end', w₂) = grade_task (grade_essay u ids now prompt call') d' task w₁ in
        (end ≡ retried (power_of_two d.retries))
        × (end' ≡ raised grading_in_progress)
        × Shows w₂.db task.essay_id job.essay EssayStatus.grading
        × ((retry_essay_grading redis_up broker w₂ task.essay_id task.teacher_id strictness).0
            ≡ err conflict)
  unfolding handle clause_of
  retried_is_stuck call' d' redis_up broker strictness llm left =
      let e = task.essay_id in
      let t = task.teacher_id in
      let p = prepare-inverse w.db e t task.strictness job prepared in
      let db₁ = set_status w.db EssayStatus.grading job.essay in
      let loaded = load_in_grading w.db e t job.essay p.loaded in
      let shown = ((load_essay_iff db₁ e t _).0 loaded).0 in
      let service = grade_essay u ids now prompt call in
      let service' = grade_essay u ids now prompt call' in
      let (w₁, ran, at) =
        run-err service d task w x db₁
          (call_failed u ids now prompt call w.db e t task.strictness job x prepared failed) in
      let first : grade_task service d task w ≡ (retried (power_of_two d.retries), w₁) =
        task-err service d task w w₁ x ran ∙ rw llm (ground arith) in
      let (w₂, ran', at') = run-err service' d' task w₁ grading_in_progress w₁.db (
        refused_call u ids now prompt call' w₁.db e t task.strictness grading_in_progress
          (rw at (prepare_in_grading w.db e t task.strictness job prepared))) in
      let second : grade_task service' d' task w₁ ≡ (raised grading_in_progress, w₂) =
        task-err service' d' task w₁ w₂ grading_in_progress ran' in
      let db₂ : w₂.db ≡ db₁ = at' ∙ at in
      rw (first, second)
        (
          refl,
          refl,
          rw db₂ shown,
          retry_refused redis_up broker w₂ e t strictness
              (record job.essay { status = EssayStatus.grading }) (rw db₂ loaded) refl,
        )

  -- A delivery whose model call fails with its last retry used up, or with an error that is no LLM
  -- error, conflict or refused access, raises that error and leaves the essay queued.
  pub unrecoverable_reverts :
      (clause_of x ≡ other_clause) ⊎ ((clause_of x ≡ llm_clause) × (max_retries ≤ d.retries))
      → let (end, w₁) = grade_task (grade_essay u ids now prompt call) d task w in
        (end ≡ raised x) × Shows w₁.db task.essay_id job.essay queued
  unfolding handle
  unrecoverable_reverts clause =
      let e = task.essay_id in
      let t = task.teacher_id in
      let p = prepare-inverse w.db e t task.strictness job prepared in
      let db₁ = set_status w.db EssayStatus.grading job.essay in
      let loaded = load_in_grading w.db e t job.essay p.loaded in
      let reverted = revert-queued db₁ e t _ loaded refl in
      let service = grade_essay u ids now prompt call in
      let (w₁, ran, at) =
        run-err service d task w x db₁
          (call_failed u ids now prompt call w.db e t task.strictness job x prepared failed) in
      let ended = task-err service d task w w₁ x ran in
      let shows : (code : String) → Shows (fail_task d task code w₁).db e job.essay queued =
        λ code. ap (get e) (fail_task-essays d task code w₁) ∙ rw at reverted in
      elim clause [
        | inl other ↦ rw (ended, other) (refl, shows "INTERNAL_ERROR")
        | inr (llm, exhausted) ↦
            let last : ltb d.retries max_retries ≡ false = ground arith in
            rw (ended, llm, last) (refl, shows "LLM_UNAVAILABLE")
      ]
