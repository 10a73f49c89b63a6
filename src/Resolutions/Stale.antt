-- ===== src/Resolutions/Stale.antt =====
-- Two resolutions of one request at the same time. Both load the request while it is open; the lock
-- makes the second wait, but it then looks at the row that it loaded before.
use rubric_grading_engine.Prelude.{ℕ, ◌≡◌, ◌≢◌, refl, none, some, ◌∷◌, ◌++◌, arith, []}
use rubric_grading_engine.Prelude.Results.{ok}
use rubric_grading_engine.Prelude.Tables.{get, put, get-put}
use rubric_grading_engine.Models.{RegradeRequest, request_row}
use rubric_grading_engine.Models.Store.{Db}
use rubric_grading_engine.Resolutions.{
  Decision, apply_decision, resolved, resolution_log, check_decision, resolve_loaded, flush_request,
  row_under_lock, status_after,
}
use rubric_grading_engine.Resolutions.Outcome.{flush-resolved, flush-note_kept, flush-note_set}

module _ (now later : ℕ) (db : Db) (q : RegradeRequest) (t t' : ℕ) (first second : Decision) where
  -- If two decisions are valid for the same stored open request, as both loaded it, and set no
  -- score, both succeed, and the log holds both, each as a change from open. The second overwrites the
  -- first's status and time; the first's note stays when the second has the note that was loaded, and
  -- is overwritten when it has another.
  pub both_resolve :
      get q.id db.regrade_requests ≡ some q
      → check_decision q first ≡ ok tt
      → check_decision q second ≡ ok tt
      → first.new_criterion_score ≡ none
      → second.new_criterion_score ≡ none
      → (db₁ : Db) × (db₂ : Db) × (last : RegradeRequest) × (resolve_loaded now db q t first
          ≡ ok (db₁, resolved now first q))
        × (resolve_loaded later db₁ q t' second ≡ ok (db₂, last))
        × (get q.id db₁.regrade_requests ≡ some (resolved now first q))
        × (get q.id db₂.regrade_requests ≡ some last)
        × (last.status ≡ status_after second.resolution)
        × (last.resolved_at ≡ some later)
        × (second.resolution_note ≡ q.resolution_note
            → last.resolution_note ≡ first.resolution_note)
        × (second.resolution_note ≢ q.resolution_note
            → last.resolution_note ≡ second.resolution_note)
        × (db₂.audit_logs
            ≡ (db.audit_logs ++ resolution_log t first q ∷ []) ++ resolution_log t' second q ∷ [])
  unfolding resolve_loaded apply_decision flush_request row_under_lock
  both_resolve found valid₁ valid₂ plain₁ plain₂ =
      let row = resolved now first q in
      let db₁ : Db = record db {
        regrade_requests = put row db.regrade_requests;
        audit_logs = db.audit_logs ++ resolution_log t first q ∷ [];
      } in
      let last = flush_request q (resolved later second q) row in
      let db₂ : Db = record db₁ {
        regrade_requests = put last db₁.regrade_requests;
        audit_logs = db₁.audit_logs ++ resolution_log t' second q ∷ [];
      } in
      let there : get q.id db₁.regrade_requests ≡ some row =
        ground (arith, get-put q.id row db.regrade_requests) in
      let flushed = flush-resolved now db q first found in
      (
        db₁,
        db₂,
        last,
        ground (arith, flushed),
        ground (arith, there),
        there,
        ground (arith, get-put q.id last db₁.regrade_requests),
        refl,
        refl,
        flush-note_kept q (resolved later second q) row,
        flush-note_set q (resolved later second q) row,
        refl,
      )
