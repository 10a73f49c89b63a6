-- ===== src/Resolutions/Outcome.antt =====
-- What a resolution leaves: the request, the scores and the audit log.
use rubric_grading_engine.Prelude.{
  ℕ, String, ◌≡◌, ◌≢◌, ◌↔◌, sym, ap, ◌∙◌, Bool-cases, refl, ◌⊎◌, inl, inr, true, false, not, ◌&&◌,
  Option, none, some, ◌∷◌, ◌++◌, arith, ◌==◌, Option-cases, [],
}
use rubric_grading_engine.Prelude.Int.{ℤ}
use rubric_grading_engine.Prelude.Results.{ok, Result-cases}
use rubric_grading_engine.Prelude.Tables.{get, get_where, put, get_where_iff}
use rubric_grading_engine.Prelude.Texts.{str_eq_iff}
use rubric_grading_engine.Models.{
  CriterionScore, RegradeRequest, AuditLog, EntityType, score_override, grade_row, score_row,
  request_row,
}
use rubric_grading_engine.Models.Store.{Db}
use rubric_grading_engine.Grades.{score_value, is_none}
use rubric_grading_engine.Resolutions.{
  Resolution, approve, deny, Decision, is_open, is_denial, is_blank, check_grade, rescore,
  retotal_grade, apply_new_score, apply_decision, resolved, resolution_log, check_decision,
  resolve_loaded, flush_request, row_under_lock, is_same_note,
}

abbrev pub rescore_log : ℕ → ℤ → CriterionScore → AuditLog
rescore_log t n x = record {
  teacher_id = some t;
  entity_type = EntityType.criterion_score;
  entity_id = x.id;
  action = score_override (score_value x) (score_value (rescore n x));
}

abbrev pub rescored : Db → RegradeRequest → ℕ → ℤ → CriterionScore → Db
rescored db q t n x = record db {
  grades = retotal_grade db (get q.grade_id db.grades);
  criterion_scores = put (rescore n x) db.criterion_scores;
  audit_logs = db.audit_logs ++ rescore_log t n x ∷ [];
}

-- A score that is applied goes to a criterion score of the request's grade, which is not locked.
pub apply_new_score_inverse :
    (db : Db) (q : RegradeRequest) (c t : ℕ) (n : ℤ) (db' : Db)
    → apply_new_score db q c t n ≡ ok db'
    → (x : CriterionScore) × (get c db.criterion_scores ≡ some x)
      × (x.grade_id ≡ q.grade_id)
      × (check_grade db (get q.grade_id db.grades) x n ≡ ok tt)
      × (db' ≡ rescored db q t n x)
unfolding apply_new_score
apply_new_score_inverse db q c t n db' h =
    elim (Option-cases
      (get_where c (λ (x : CriterionScore). x.grade_id == q.grade_id) db.criterion_scores)) [
        | inl missing ↦ ground arith
        | inr (x, scored) ↦
            let is =
              (get_where_iff c (λ (x : CriterionScore). x.grade_id == q.grade_id)
                  db.criterion_scores x).0
                scored in
            (x, is.0, ground arith, ground arith, ground arith)
      ]

-- A decision that approved the score `n` for the criterion score `c` of the request.
pub record Rescores (db : Db) (q : RegradeRequest) (t : ℕ) (body : Decision) (db' : Db) (c : ℕ)
    (n : ℤ) : Type 0 where
  pub is_approval : body.resolution ≡ approve
  pub given : body.new_criterion_score ≡ some n
  pub about : q.criterion_score_id ≡ some c
  pub applied : apply_new_score db q c t n ≡ ok db'

module _ (db : Db) (q : RegradeRequest) (t : ℕ) (body : Decision) (db' : Db)
    (done : apply_decision db q t body ≡ ok db') where
  -- A decision leaves the database alone, or it approved a score for the request's criterion.
  pub apply_decision_inverse : (db' ≡ db) ⊎ ((c : ℕ) × (n : ℤ) × Rescores db q t body db' c n)
  unfolding apply_decision
  apply_decision_inverse = choose body.resolution refl
    where
      scored :
          (n : Option ℤ) (c : Option ℕ)
          → body.resolution ≡ approve
          → body.new_criterion_score ≡ n
          → q.criterion_score_id ≡ c
          → (db' ≡ db) ⊎ ((c : ℕ) × (n : ℤ) × Rescores db q t body db' c n)
      scored none c r a b = inl (ground arith)
      scored (some n) none r a b = inl (ground arith)
      scored (some n) (some c) r a b = inr (c, n, ground arith)

      choose :
          (res : Resolution)
          → body.resolution ≡ res
          → (db' ≡ db) ⊎ ((c : ℕ) × (n : ℤ) × Rescores db q t body db' c n)
      choose deny r = inl (ground arith)
      choose approve r = scored body.new_criterion_score q.criterion_score_id r refl refl

  -- No decision touches the requests themselves.
  pub requests-apply_decision : db'.regrade_requests ≡ db.regrade_requests
  requests-apply_decision = elim apply_decision_inverse [
    | inl same ↦ rw same
    | inr (c, n, s) ↦
        let (x, _, _, _, eq) = apply_new_score_inverse db q c t n db' s.applied in rw eq
  ]

-- What a resolution that succeeds has done: its request was open, the decision was applied, and the
-- request and one log entry were written.
pub record Resolved (now : ℕ) (db : Db) (q : RegradeRequest) (t : ℕ) (body : Decision) (db' : Db)
    (q' : RegradeRequest) (scored : Db) : Type 0 where
  pub was_open : is_open q.status ≡ true
  pub noted : is_denial body.resolution && is_blank body.resolution_note ≡ false
  pub unscored : not (is_none body.new_criterion_score) && is_denial body.resolution ≡ false
  pub aimed : not (is_none body.new_criterion_score) && is_none q.criterion_score_id ≡ false
  pub decided : apply_decision db q t body ≡ ok scored
  pub written : q' ≡ flush_request q (resolved now body q) (row_under_lock db q)
  pub committed : db' ≡ record scored {
    regrade_requests = put q' db.regrade_requests;
    audit_logs = scored.audit_logs ++ resolution_log t body q ∷ [];
  }

is-same_note_iff : (a b : Option String) → (is_same_note a b ≡ true) ↔ (a ≡ b)
unfolding is_same_note
is-same_note_iff none none = ground arith
is-same_note_iff none (some b) = ground arith
is-same_note_iff (some a) none = ground arith
is-same_note_iff (some a) (some b) =
    let same = str_eq_iff a b in (λ h. ap some (same.0 h), λ h. same.1 cc)

-- What the flush leaves of the note: the row's when the request keeps the note that it was loaded with.
pub flush-note_kept :
    (q changed row : RegradeRequest)
    → changed.resolution_note ≡ q.resolution_note
    → (flush_request q changed row).resolution_note ≡ row.resolution_note
unfolding flush_request
flush-note_kept q changed row h =
    let same = (is-same_note_iff q.resolution_note changed.resolution_note).1 (sym h) in
    rw same refl

pub flush-note_set :
    (q changed row : RegradeRequest)
    → changed.resolution_note ≢ q.resolution_note
    → (flush_request q changed row).resolution_note ≡ changed.resolution_note
unfolding flush_request
flush-note_set q changed row h =
    elim (Bool-cases (is_same_note q.resolution_note changed.resolution_note)) [
      | inl same ↦
          absurd (h (sym ((is-same_note_iff q.resolution_note changed.resolution_note).0 same)))
      | inr other ↦ rw other refl
    ]

-- Without another writer, the flush makes the row what the request was changed to.
pub flush-resolved :
    (now : ℕ) (db : Db) (q : RegradeRequest) (body : Decision)
    → get q.id db.regrade_requests ≡ some q
    → flush_request q (resolved now body q) (row_under_lock db q) ≡ resolved now body q
unfolding flush_request row_under_lock
flush-resolved now db q body found =
    let locked : row_under_lock db q ≡ q = ground (arith, found) in
    ap (flush_request q (resolved now body q)) locked
    ∙ elim (Bool-cases (is_same_note q.resolution_note body.resolution_note)) [
      | inl same ↦
          let e = (is-same_note_iff q.resolution_note body.resolution_note).0 same in
          rw same (ap (λ note. record (resolved now body q) { resolution_note = note }) e)
      | inr other ↦ rw other refl
    ]

pub resolve_inverse :
    (now : ℕ) (db : Db) (q : RegradeRequest) (t : ℕ) (body : Decision) (db' : Db)
    (q' : RegradeRequest)
    → resolve_loaded now db q t body ≡ ok (db', q')
    → (scored : Db) × Resolved now db q t body db' q' scored
unfolding resolve_loaded check_decision
resolve_inverse now db q t body db' q' h = elim (Result-cases (apply_decision db q t body)) [
  | inr (e, failed) ↦ ground arith
  | inl (scored, decided) ↦
      let kept = requests-apply_decision db q t body scored decided in (scored, ground arith)
]
