-- ===== src/Regrades/Limit.antt =====
-- When a submission is accepted, and the limit on the requests of one grade.
use rubric_grading_engine.Prelude.{
  ℕ, ◌+◌, ◌*◌, ◌≤◌, ◌<◌, ◌≡◌, ◌↔◌, inl, inr, refl, Option, none, some, Option-cases, List, ◌∷◌,
  ◌++◌, arith, count_if, count_if-append, [],
}
use rubric_grading_engine.Prelude.Results.{ok, Result-cases}
use rubric_grading_engine.Prelude.Tables.{get, get_where}
use rubric_grading_engine.Models.{Grade, CriterionScore, RegradeRequest, grade_row, score_row}
use rubric_grading_engine.Models.Store.{
  Db, load_grade_tenant_scoped, load_grade_iff, owner_of_grade,
}
use rubric_grading_engine.Regrades.{
  Settings, day, Submission, of_grade, check_criterion, new_request, create_regrade_request,
}

-- A criterion score that is named is one of the grade.
abbrev pub IsOfGrade : Db → ℕ → Option ℕ → Type 0
IsOfGrade db g none = Unit
IsOfGrade db g (some c) =
    (y : CriterionScore) × (get c db.criterion_scores ≡ some y) × (y.grade_id ≡ g)

check_criterion_iff :
    (db : Db) (g : ℕ) (named : Option ℕ)
    → (check_criterion db g named ≡ ok tt) ↔ IsOfGrade db g named
unfolding check_criterion get_where
check_criterion_iff db g none = (λ h. tt, λ h. refl)
check_criterion_iff db g (some c) = elim (Option-cases (get c db.criterion_scores)) [
  | inl gone ↦ (λ h. absurd (ground arith), λ (y, found, of). absurd (cc))
  | inr (y, here) ↦ (λ h. (y, here, ground arith), λ (z, found, of). ground arith)
]

-- An accepted submission: by the grade's teacher, in the window and below the limit, about a
-- criterion score of this grade if about one, and the database with its request added.
pub record Accepted (s : Settings) (now id : ℕ) (db : Db) (g t : ℕ) (body : Submission) (db' : Db)
    (x : RegradeRequest) (grade : Grade) : Type 0 where
  pub found : get g db.grades ≡ some grade
  pub owned : owner_of_grade db grade ≡ some t
  pub in_window : now ≤ grade.created_at + s.window_days * day
  pub below : count_if (of_grade g) db.regrade_requests < s.max_per_grade
  pub fits : IsOfGrade db g body.criterion_score_id
  pub is_new : x ≡ new_request id g t body
  pub added : db' ≡ record db { regrade_requests = db.regrade_requests ++ x ∷ [] }

module _ (s : Settings) (now id : ℕ) (db : Db) (g t : ℕ) (body : Submission) (db' : Db)
    (x : RegradeRequest) where
  -- A submission is accepted exactly when the grade is the teacher's, its window has not passed,
  -- fewer requests than the limit exist for it, and the criterion score that it names, if any, is
  -- one of this grade; it then adds one open request and changes nothing else.
  pub create_iff :
      (create_regrade_request s now id db g t body ≡ ok (db', x))
      ↔ ((grade : Grade) × Accepted s now id db g t body db' x grade)
  unfolding create_regrade_request
  create_iff = (
    λ h. elim (Result-cases (load_grade_tenant_scoped db g t)) [
      | inr (e, failed) ↦ ground arith
      | inl (grade, loaded) ↦
          let is = (load_grade_iff db g t grade).0 loaded in
          let checked : check_criterion db g body.criterion_score_id ≡ ok tt = ground arith in
          let fits = (check_criterion_iff db g body.criterion_score_id).0 checked in
          (
            grade,
            record {
              found = is.0;
              owned = is.1;
              in_window = ground arith;
              below = ground arith;
              fits = fits;
              is_new = ground arith;
              added = ground arith;
            },
          )
    ],
    λ (grade, a).
        let loaded = (load_grade_iff db g t grade).1 (a.found, a.owned) in
        let checked = (check_criterion_iff db g body.criterion_score_id).1 a.fits in ground arith,
  )

-- No grade has more requests than the limit.
abbrev pub WithinLimit : Settings → List RegradeRequest → Type 0
WithinLimit s requests = (g : ℕ) → count_if (of_grade g) requests ≤ s.max_per_grade

-- A submission keeps every grade within the limit.
pub create-WithinLimit :
    (s : Settings) (now id : ℕ) (db : Db) (g t : ℕ) (body : Submission) (db' : Db)
    (x : RegradeRequest)
    → WithinLimit s db.regrade_requests
    → create_regrade_request s now id db g t body ≡ ok (db', x)
    → WithinLimit s db'.regrade_requests
create-WithinLimit s now id db g t body db' x limit h k =
    let (grade, a) = (create_iff s now id db g t body db' x).0 h in
    rw a.added (rw count_if-append (rw a.is_new (ground (arith, limit k, a.below))))
