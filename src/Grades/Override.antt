-- ===== src/Grades/Override.antt =====
-- What an override of a criterion score changes, and what it refuses.
use rubric_grading_engine.Prelude.{
  ℕ, String, ◌≡◌, ◌≢◌, inl, inr, false, ◌&&◌, Option, some, ◌∷◌, ◌++◌, arith, ◌==◌, Option-cases,
  [],
}
use rubric_grading_engine.Prelude.Int.{ℤ, ◌≤ℤ◌}
use rubric_grading_engine.Prelude.Results.{ok, Result-cases}
use rubric_grading_engine.Prelude.Tables.{get, get_where, put, key-get, get-put, get_where_iff}
use rubric_grading_engine.Models.{
  Grade, CriterionScore, SnapshotCriterion, AuditLog, EntityType, score_override, grade_row,
  score_row,
}
use rubric_grading_engine.Models.Store.{
  Db, load_grade_tenant_scoped, load_grade_iff, owner_of_grade,
}
use rubric_grading_engine.Grades.{
  GradeResponse, respond, score_value, set_score, set_feedback, retotal, criterion_in_snapshot,
  check_teacher_score, override_criterion, is_none,
}

-- The rows that an override reads: the grade of the teacher, not locked, and its criterion score.
pub record Editable (db : Db) (g c t : ℕ) (grade : Grade) (x : CriterionScore) : Type 0 where
  pub found : get g db.grades ≡ some grade
  pub owned : owner_of_grade db grade ≡ some t
  pub unlocked : grade.is_locked ≡ false
  pub scored : get c db.criterion_scores ≡ some x
  pub belongs : x.grade_id ≡ g

abbrev pub override_log : ℕ → ℕ → CriterionScore → CriterionScore → AuditLog
override_log c t x x' = record {
  teacher_id = some t;
  entity_type = EntityType.criterion_score;
  entity_id = c;
  action = score_override (score_value x) (score_value x');
}

abbrev pub overridden : Db → ℕ → ℕ → ℕ → Option ℤ → Option String → Grade → CriterionScore → Db
overridden db g c t score feedback grade x =
    let x' = set_feedback feedback (set_score score x) in
    record db {
      grades = put (retotal db g score grade) db.grades;
      criterion_scores = put x' db.criterion_scores;
      audit_logs = db.audit_logs ++ override_log c t x x' ∷ [];
    }

-- An override keeps the key and the grade of the row.
pub same_id :
    (score : Option ℤ) (feedback : Option String) (x : CriterionScore)
    → ((set_feedback feedback (set_score score x)).id ≡ x.id)
      × ((set_feedback feedback (set_score score x)).grade_id ≡ x.grade_id)
same_id score feedback x = ground arith

module _ (db : Db) (g c t : ℕ) (score : Option ℤ) (feedback : Option String) where
  -- A successful override read an unlocked grade of the teacher and a criterion score of that grade.
  pub override_inverse :
      (db' : Db) (r : GradeResponse)
      → override_criterion db g c t score feedback ≡ ok (db', r)
      → (grade : Grade) × (x : CriterionScore) × Editable db g c t grade x
        × (check_teacher_score db grade x score ≡ ok tt)
        × (db' ≡ overridden db g c t score feedback grade x)
  unfolding override_criterion
  override_inverse db' r h = elim (Result-cases (load_grade_tenant_scoped db g t)) [
    | inr (e, failed) ↦ ground arith
    | inl (grade, loaded) ↦
        elim (Option-cases
          (get_where c (λ (x : CriterionScore). x.grade_id == g) db.criterion_scores)) [
            | inl missing ↦ ground arith
            | inr (x, scored) ↦ (
              grade,
              x,
              ground (
                arith,
                load_grade_iff db g t grade,
                get_where_iff c (λ (x : CriterionScore). x.grade_id == g) db.criterion_scores x,
              ),
              ground arith,
              ground arith,
            )
          ]
  ]

  -- The other way: for such rows, a value to set and a score in the snapshot's range it succeeds.
  pub override_succeeds :
      (grade : Grade) (x : CriterionScore)
      → Editable db g c t grade x
      → is_none score && is_none feedback ≡ false
      → check_teacher_score db grade x score ≡ ok tt
      → let db' = overridden db g c t score feedback grade x in
        override_criterion db g c t score feedback
        ≡ ok (db', respond db' (retotal db g score grade))
  unfolding override_criterion
  override_succeeds grade x e given checked = ground (
    arith,
    load_grade_iff db g t grade,
    get_where_iff c (λ (x : CriterionScore). x.grade_id == g) db.criterion_scores x,
  )

  -- A successful override sets the score and the feedback that were given, in that criterion score
  -- and in no other, and appends one audit entry with both values.
  pub override_effect :
      (db' : Db) (r : GradeResponse)
      → override_criterion db g c t score feedback ≡ ok (db', r)
      → (x : CriterionScore) × (get c db.criterion_scores ≡ some x)
        × (get c db'.criterion_scores ≡ some (set_feedback feedback (set_score score x)))
        × ((k : ℕ) → k ≢ c → get k db'.criterion_scores ≡ get k db.criterion_scores)
        × (db'.audit_logs
            ≡ db.audit_logs ++ override_log c t x (set_feedback feedback (set_score score x)) ∷ [])
  override_effect db' r h =
      let (grade, x, e, checked, eq) = override_inverse db' r h in
      let id_x = key-get c x db.criterion_scores e.scored in
      let x' = set_feedback feedback (set_score score x) in
      (
        x,
        e.scored,
        rw eq (rw get-put (ground (arith, same_id score feedback x))),
        λ k ne. rw eq (rw get-put (ground (arith, same_id score feedback x))),
        rw eq,
      )

  -- A score that an override stores lies in the bounds of the snapshot, where the snapshot has the
  -- criterion.
  pub override_in_range :
      (db' : Db) (r : GradeResponse) (n : ℤ) (grade : Grade) (x : CriterionScore)
      (bounds : SnapshotCriterion)
      → score ≡ some n
      → override_criterion db g c t score feedback ≡ ok (db', r)
      → get g db.grades ≡ some grade
      → get c db.criterion_scores ≡ some x
      → criterion_in_snapshot db grade x ≡ some bounds
      → (bounds.min_score ≤ℤ n) × (n ≤ℤ bounds.max_score)
  unfolding check_teacher_score
  override_in_range db' r n grade x bounds given h found scored known =
      let (grade₁, x₁, e, checked, eq) = override_inverse db' r h in
      let same_grade : grade₁ ≡ grade = cc (e.found, found) in
      let same_score : x₁ ≡ x = cc (e.scored, scored) in ground arith
