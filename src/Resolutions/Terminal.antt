-- ===== src/Resolutions/Terminal.antt =====
-- A request is resolved once: the states of a request, and what a denial and an approval may change.
use rubric_grading_engine.Prelude.{
  ℕ, ◌≡◌, refl, ap, ◌∙◌, ◌≢◌, ◌↔◌, inl, inr, false, not, ◌&&◌, none, some, List, ◌∷◌, ◌++◌, arith,
  Option-cases, [],
}
use rubric_grading_engine.Prelude.Int.{ℤ}
use rubric_grading_engine.Prelude.Results.{Error, conflict, ok, err, Result-cases}
use rubric_grading_engine.Prelude.Tables.{get, get_where, put, key-get, get-put}
use rubric_grading_engine.Models.{
  CriterionScore, RegradeRequest, AuditLog, grade_row, request_row, score_row,
}
use rubric_grading_engine.Models.Store.{Db, owner_of_grade, assignment_of_version}
use rubric_grading_engine.Grades.{sum_final, is_none}
use rubric_grading_engine.Resolutions.{
  approve, deny, Decision, owner_of_request, load_request_tenant_scoped, is_open, is_blank, rescore,
  retotal_grade, apply_new_score, apply_decision, status_after, resolved, resolution_log,
  check_decision, resolve_loaded, resolve_regrade_request,
}
use rubric_grading_engine.Resolutions.Outcome.{
  rescore_log, apply_new_score_inverse, apply_decision_inverse, resolve_inverse, flush-resolved,
}

-- A scoped load finds a request whose grade the teacher owns.
pub load_request_iff :
    (db : Db) (id t : ℕ) (q : RegradeRequest)
    → (load_request_tenant_scoped db id t ≡ ok q)
      ↔ ((get id db.regrade_requests ≡ some q) × (owner_of_request db q ≡ some t))
unfolding load_request_tenant_scoped get_where
load_request_iff db id t q = ground arith

module _ (now : ℕ) (db : Db) (q : RegradeRequest) (t : ℕ) (body : Decision) (db' : Db)
    (q' : RegradeRequest) (done : resolve_loaded now db q t body ≡ ok (db', q')) where
  -- A successful resolution of a stored request moves that request, and no other, to the decided
  -- status, with the time of the resolution.
  pub resolve_moves :
      get q.id db.regrade_requests ≡ some q
      → (get q.id db'.regrade_requests ≡ some q')
        × (q'.status ≡ status_after body.resolution)
        × (q'.resolved_at ≡ some now)
        × ((k : ℕ) → k ≢ q.id → get k db'.regrade_requests ≡ get k db.regrade_requests)
  resolve_moves found =
      let (scored, r) = resolve_inverse now db q t body db' q' done in
      let flushed = flush-resolved now db q body found in
      (
        ground (arith, flushed, get-put q.id (resolved now body q) db.regrade_requests),
        ground (arith, flushed),
        ground (arith, flushed),
        λ k ne. ground (arith, flushed, get-put k (resolved now body q) db.regrade_requests),
      )

  -- A denial has a note, changes no grade and no criterion score, and appends one log entry.
  pub denial_effect :
      body.resolution ≡ deny
      → (is_blank body.resolution_note ≡ false)
        × (db'.grades ≡ db.grades)
        × (db'.criterion_scores ≡ db.criterion_scores)
        × (db'.audit_logs ≡ db.audit_logs ++ resolution_log t body q ∷ [])
  denial_effect denied =
      let (scored, r) = resolve_inverse now db q t body db' q' done in
      elim (apply_decision_inverse db q t body scored r.decided) [
        | inl same ↦ (ground arith, ground arith, ground arith, ground arith)
        | inr (c, n, s) ↦ absurd (clash s.is_approval)
      ]
    where
      clash : body.resolution ≡ approve → ⊥
      clash a = ground arith

  -- An approval with a score sets it as teacher's and as final score of the criterion score that the
  -- request names, which is one of the request's grade, and logs that change before the resolution.
  pub approval_effect :
      (n : ℤ)
      → body.resolution ≡ approve
      → body.new_criterion_score ≡ some n
      → (c : ℕ) × (x : CriterionScore) × (q.criterion_score_id ≡ some c)
        × (get c db.criterion_scores ≡ some x)
        × (x.grade_id ≡ q.grade_id)
        × (get c db'.criterion_scores ≡ some (rescore n x))
        × ((k : ℕ) → k ≢ c → get k db'.criterion_scores ≡ get k db.criterion_scores)
        × (db'.audit_logs
            ≡ (db.audit_logs ++ rescore_log t n x ∷ []) ++ resolution_log t body q ∷ [])
  unfolding apply_decision
  approval_effect n approved given =
      let (scored, r) = resolve_inverse now db q t body db' q' done in
      elim (Option-cases q.criterion_score_id) [
        | inl none_named ↦ absurd (not_aimed none_named r.aimed)
        | inr (c, named) ↦
            let applied : apply_new_score db q c t n ≡ ok scored = ground (arith, r.decided) in
            let (x, found, belongs, checked, eq) =
              apply_new_score_inverse db q c t n scored applied in
            let id_x = key-get c x db.criterion_scores found in
            (
              c,
              x,
              named,
              found,
              belongs,
              ground (arith, r.committed, get-put c (rescore n x) db.criterion_scores),
              λ k ne. ground (arith, r.committed, get-put k (rescore n x) db.criterion_scores),
              ground (arith, r.committed),
            )
      ]
    where
      not_aimed :
          q.criterion_score_id ≡ none
          → not (is_none body.new_criterion_score) && is_none q.criterion_score_id ≡ false
          → ⊥
      not_aimed a b = ground arith

-- A recomputed total does not change whose grade it is.
owner-retotal_grade :
    (db : Db) (q : RegradeRequest) (scores : List CriterionScore) (requests : List RegradeRequest)
    (logs : List AuditLog)
    → owner_of_request
        (record db {
          grades = retotal_grade db (get q.grade_id db.grades);
          criterion_scores = scores;
          regrade_requests = requests;
          audit_logs = logs;
        })
        q
      ≡ owner_of_request db q
unfolding owner_of_request owner_of_grade assignment_of_version
owner-retotal_grade db q scores requests logs = elim (Option-cases (get q.grade_id db.grades)) [
  | inl gone ↦ ground arith
  | inr (grade, found) ↦
      let id = key-get q.grade_id grade db.grades found in
      let total = record grade { total_score = sum_final grade.id db.criterion_scores } in
      let now_there : get q.grade_id (put total db.grades) ≡ some total =
        ground (arith, get-put q.grade_id total db.grades) in
      rw (found, owner_of_request) (rw (now_there, owner_of_request))
]

-- A successful resolution leaves the teacher the owner of the request.
owner_after :
    (now : ℕ) (db : Db) (q : RegradeRequest) (t : ℕ) (body : Decision) (db' : Db)
    (q' : RegradeRequest)
    → get q.id db.regrade_requests ≡ some q
    → resolve_loaded now db q t body ≡ ok (db', q')
    → owner_of_request db' q' ≡ owner_of_request db q
unfolding owner_of_request owner_of_grade assignment_of_version
owner_after now db q t body db' q' found done =
    let (scored, r) = resolve_inverse now db q t body db' q' done in
    let written = r.written ∙ flush-resolved now db q body found in
    elim (apply_decision_inverse db q t body scored r.decided) [
      | inl same ↦ rw (r.committed, written, same) refl
      | inr (c, n, s) ↦
          let (x, _, _, _, eq) = apply_new_score_inverse db q c t n scored s.applied in
          rw (r.committed, written, eq)
            (owner-retotal_grade db q (put (rescore n x) db.criterion_scores)
              (put (resolved now body q) db.regrade_requests)
              ((db.audit_logs ++ rescore_log t n x ∷ []) ++ resolution_log t body q ∷ []))
    ]

closed_conflicts :
    (now : ℕ) (db : Db) (q : RegradeRequest) (t : ℕ) (body : Decision)
    → is_open q.status ≡ false
    → resolve_loaded now db q t body ≡ err conflict
unfolding resolve_loaded check_decision
closed_conflicts now db q t body shut = ground arith

not_open :
    {now : ℕ} (body : Decision) (q q' : RegradeRequest)
    → q' ≡ resolved now body q
    → is_open q'.status ≡ false
not_open body q q' is = ground arith

-- A resolved request stays resolved: after one successful resolution every further one of the same
-- request, with whatever decision, is refused as a conflict.
pub resolve_once :
    (now : ℕ) (db : Db) (id t : ℕ) (body : Decision) (db' : Db) (q' : RegradeRequest) (later : ℕ)
    (again : Decision)
    → resolve_regrade_request now db id t body ≡ ok (db', q')
    → resolve_regrade_request later db' id t again ≡ err conflict
unfolding resolve_regrade_request
resolve_once now db id t body db' q' later again h =
    elim (Result-cases (load_request_tenant_scoped db id t)) [
      | inr (e, failed) ↦ absurd (never e failed)
      | inl (q, loaded) ↦
          let done : resolve_loaded now db q t body ≡ ok (db', q') = ground arith in
          let (found, owned) = (load_request_iff db id t q).0 loaded in
          let (scored, r) = resolve_inverse now db q t body db' q' done in
          let id_q = key-get id q db.regrade_requests found in
          let own : get q.id db.regrade_requests ≡ some q =
            ap (λ k. get k db.regrade_requests) id_q ∙ found in
          let written = r.written ∙ flush-resolved now db q body own in
          let reloaded = (load_request_iff db' id t q').1 (
            ground
                (arith, r.committed, written, get-put id (resolved now body q) db.regrade_requests),
            owner_after now db q t body db' q' own done ∙ owned,
          ) in
          let shut : is_open q'.status ≡ false = not_open body q q' written in
          rw reloaded (closed_conflicts later db' q' t again shut)
    ]
  where
    never : (e : Error) → load_request_tenant_scoped db id t ≡ err e → ⊥
    never e failed = ground arith
