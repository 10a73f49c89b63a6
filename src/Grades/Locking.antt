-- ===== src/Grades/Locking.antt =====
-- The lock of a grade: made once, logged once, and final for the editing operations.
use rubric_grading_engine.Prelude.{
  ℕ, String, ◌≡◌, refl, inl, inr, true, false, ◌&&◌, Option, some, ◌∷◌, ◌++◌, arith, if◌then◌else◌,
  Bool-cases, [],
}
use rubric_grading_engine.Prelude.Int.{ℤ}
use rubric_grading_engine.Prelude.Results.{Error, grade_locked, ok, err}
use rubric_grading_engine.Prelude.Tables.{get, put}
use rubric_grading_engine.Models.{Grade, AuditLog, EntityType, grade_locked, grade_row}
use rubric_grading_engine.Models.Store.{
  Db, load_grade_tenant_scoped, load_grade_iff, owner_of_grade, load_grade-with_grade,
}
use rubric_grading_engine.Grades.{
  GradeResponse, respond, update_grade_feedback, override_criterion, lock_grade, is_none,
}

abbrev pub lock_log : ℕ → ℕ → AuditLog
lock_log g t = record {
  teacher_id = some t;
  entity_type = EntityType.grade;
  entity_id = g;
  action = grade_locked;
}

-- The database after a lock of a grade that may have been locked before.
abbrev pub locked_db : Db → ℕ → ℕ → ℕ → Grade → Db
locked_db db now g t grade = if grade.is_locked then db else record db {
  grades = put (record grade { is_locked = true; locked_at = some now }) db.grades;
  audit_logs = db.audit_logs ++ lock_log g t ∷ [];
}

abbrev pub locked_grade : ℕ → Grade → Grade
locked_grade now grade =
    if grade.is_locked then grade else record grade { is_locked = true; locked_at = some now }

-- A teacher's lock of an own grade always succeeds: it sets the lock and appends one audit entry
-- if the grade was open, and changes nothing if it was locked.
pub lock_grade_succeeds :
    (db : Db) (now g t : ℕ) (grade : Grade)
    → get g db.grades ≡ some grade
    → owner_of_grade db grade ≡ some t
    → lock_grade db now g t
      ≡ ok (
        locked_db db now g t grade,
        respond (locked_db db now g t grade) (locked_grade now grade),
      )
unfolding lock_grade
lock_grade_succeeds db now g t grade found owned = ground (arith, load_grade_iff db g t grade)

-- The grade that a lock leaves is locked, and still the teacher's.
after_lock :
    (db : Db) (now g t : ℕ) (grade : Grade)
    → get g db.grades ≡ some grade
    → owner_of_grade db grade ≡ some t
    → let db' = locked_db db now g t grade in
      (load_grade_tenant_scoped db' g t ≡ ok (locked_grade now grade))
      × ((locked_grade now grade).is_locked ≡ true)
after_lock db now g t grade found owned = elim (Bool-cases grade.is_locked) [
  | inl locked ↦ ground (arith, load_grade_iff db g t grade)
  | inr unlocked ↦
      let lock = record grade { is_locked = true; locked_at = some now } in
      let loaded =
        load_grade-with_grade db g t grade lock db.criterion_scores db.regrade_requests
          (db.audit_logs ++ lock_log g t ∷ []) found owned refl refl in
      ground arith
]

-- What the three operations do to a grade that the teacher loads as locked.
locked_refuses :
    (db : Db) (now g c t : ℕ) (text : String) (score : Option ℤ) (feedback : Option String)
    (grade : Grade)
    → load_grade_tenant_scoped db g t ≡ ok grade
    → grade.is_locked ≡ true
    → is_none score && is_none feedback ≡ false
    → (update_grade_feedback db g t text ≡ err Error.grade_locked)
      × (override_criterion db g c t score feedback ≡ err Error.grade_locked)
      × (lock_grade db now g t ≡ ok (db, respond db grade))
unfolding update_grade_feedback override_criterion lock_grade
locked_refuses db now g c t text score feedback grade loaded locked given =
    (ground arith, ground arith, ground arith)

-- Once a teacher has locked a grade, every edit of its feedback or of a criterion score that gives
-- a value is refused as locked, and a second lock succeeds and changes nothing.
pub lock-then :
    (db : Db) (now g t : ℕ) (grade : Grade) (db' : Db) (r : GradeResponse) (later c : ℕ)
    (text : String) (score : Option ℤ) (feedback : Option String)
    → get g db.grades ≡ some grade
    → owner_of_grade db grade ≡ some t
    → lock_grade db now g t ≡ ok (db', r)
    → is_none score && is_none feedback ≡ false
    → (update_grade_feedback db' g t text ≡ err Error.grade_locked)
      × (override_criterion db' g c t score feedback ≡ err Error.grade_locked)
      × (lock_grade db' later g t ≡ ok (db', r))
lock-then db now g t grade db' r later c text score feedback found owned locked given =
    let first = lock_grade_succeeds db now g t grade found owned in
    let (loaded, is_locked) = after_lock db now g t grade found owned in
    let same : db' ≡ locked_db db now g t grade = cc (first, locked) in
    let (a, b, again) =
      locked_refuses db' later g c t text score feedback (locked_grade now grade) (rw same loaded)
        is_locked given in
    (a, b, cc (again, first, locked, same))
