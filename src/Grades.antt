-- ===== src/Grades.antt =====
-- backend/app/services/grade.py: reading, editing and locking a grade.
-- A service works in a session without autoflush (backend/app/db/session.py): what it assigns to a
-- row reaches the database at `commit`, so a query that it makes before reads the old rows. Each
-- operation is a chain of steps over the database `db` that it read, and returns the database after
-- its commit, or raises before it and leaves `db` as it is. The three background tasks that
-- `lock_grade` enqueues after its commit, and whose failure it swallows, are left out.
pub mod Override
pub mod Totals
pub mod Locking
pub mod Coalesce
use rubric_grading_engine.Prelude.{
  ℕ, String, Bool, true, false, not, ◌&&◌, Option, none, some, List, ◌∷◌, ◌++◌, map, ltb, ◌==◌,
  if◌then◌else◌, find, select, any, [],
}
use rubric_grading_engine.Prelude.Int.{ℤ, pos, ◌+ℤ◌, leb_ℤ}
use rubric_grading_engine.Prelude.Results.{
  Error, not_found, grade_locked, validation_error, Result, ok, raise_if, or_raise, ◌>>=◌, ◌>>◌,
}
use rubric_grading_engine.Prelude.Tables.{get_where, put}
use rubric_grading_engine.Models.{
  EssayVersion, Grade, CriterionScore, SnapshotCriterion, Assignment, AuditLog, ScoreValue,
  EntityType, feedback_edited, score_override, grade_locked, grade_row, score_row,
}
use rubric_grading_engine.Models.Store.{
  Db, load_grade_tenant_scoped, load_essay_tenant_scoped, assignment_of_version,
}

-- `GradeResponse`: the grade with its criterion scores.
pub record GradeResponse : Type 0 where
  pub grade : Grade
  pub criterion_scores : List CriterionScore

-- `_load_criterion_scores`
unfoldable pub load_criterion_scores : Db → ℕ → List CriterionScore
load_criterion_scores db g = select (λ (x : CriterionScore). x.grade_id == g) db.criterion_scores

unfoldable pub respond : Db → Grade → GradeResponse
unfolding load_criterion_scores
respond db g = record { grade = g; criterion_scores = load_criterion_scores db g.id }

-- The latest version: ORDER BY version_number DESC LIMIT 1.
unfoldable pub latest : List EssayVersion → Option EssayVersion
latest [] = none
latest (v ∷ vs) =
    let rest = latest vs in
    elim rest [
      | none ↦ some v
      | some w ↦ if ltb v.version_number w.version_number then some w else some v
    ]

unfoldable pub latest_version : Db → ℕ → Option EssayVersion
unfolding latest
latest_version db e = latest (select (λ (v : EssayVersion). v.essay_id == e) db.versions)

unfoldable pub grade_of_version : Db → ℕ → Option Grade
grade_of_version db v = find (λ (g : Grade). g.essay_version_id == v) db.grades

unfoldable pub get_grade_for_essay : Db → ℕ → ℕ → Result GradeResponse
unfolding latest_version grade_of_version respond
get_grade_for_essay db e t = do
  _ ← load_essay_tenant_scoped db e t
  v ← or_raise (latest_version db e) not_found
  g ← or_raise (grade_of_version db v.id) not_found
  ok (respond db g)

-- `before` of the audit entry: the edited summary, if there is one.
abbrev summary_shown : Option String → String → String
summary_shown none generated = generated
summary_shown (some edited) generated = edited

unfoldable pub update_grade_feedback : Db → ℕ → ℕ → String → Result (Db × GradeResponse)
unfolding respond
update_grade_feedback db g t text = do
  grade ← load_grade_tenant_scoped db g t
  raise_if grade.is_locked Error.grade_locked
  let grade' = record grade { summary_feedback_edited = some text }
  let before = summary_shown grade.summary_feedback_edited grade.summary_feedback
  let audit : AuditLog = record {
    teacher_id = some t;
    entity_type = EntityType.grade;
    entity_id = g;
    action = feedback_edited before text;
  }
  let db' = record db { grades = put grade' db.grades; audit_logs = db.audit_logs ++ audit ∷ [] }
  ok (db', respond db' grade')

-- The entry of the rubric snapshot for a criterion, by its id.
unfoldable pub criterion_of : ℕ → Assignment → Option SnapshotCriterion
criterion_of c a = find (λ (x : SnapshotCriterion). x.id == c) a.rubric_snapshot.criteria

abbrev pub in_range : SnapshotCriterion → ℤ → Bool
in_range c n = leb_ℤ c.min_score n && leb_ℤ n c.max_score

-- The bounds of the snapshot, where it has the criterion; otherwise every score passes.
unfoldable pub check_range : Option SnapshotCriterion → ℤ → Result (Unit {0})
check_range none n = ok tt
check_range (some c) n = raise_if (not (in_range c n)) (validation_error "teacher_score")

unfoldable pub criterion_in_snapshot : Db → Grade → CriterionScore → Option SnapshotCriterion
unfolding criterion_of
criterion_in_snapshot db g x = elim (assignment_of_version db g.essay_version_id) [
  | none ↦ none
  | some a ↦ criterion_of x.rubric_criterion_id a
]

unfoldable pub check_teacher_score : Db → Grade → CriterionScore → Option ℤ → Result (Unit {0})
unfolding check_range
check_teacher_score db g x none = ok tt
check_teacher_score db g x (some n) = check_range (criterion_in_snapshot db g x) n

abbrev pub score_value : CriterionScore → ScoreValue
score_value x = record {
  teacher_score = x.teacher_score;
  teacher_feedback = x.teacher_feedback;
  final_score = x.final_score;
}

abbrev pub set_score : Option ℤ → CriterionScore → CriterionScore
set_score none x = x
set_score (some n) x = record x { teacher_score = some n; final_score = n }

abbrev pub set_feedback : Option String → CriterionScore → CriterionScore
set_feedback none x = x
set_feedback (some text) x = record x { teacher_feedback = some text }

-- The final scores that the database has for a grade, added up.
unfoldable pub sum_final : ℕ → List CriterionScore → ℤ
sum_final g [] = pos 0
sum_final g (x ∷ xs) =
    let rest = sum_final g xs in if x.grade_id == g then x.final_score +ℤ rest else rest

-- The total is recomputed by a query before the commit: over the old rows.
abbrev pub retotal : Db → ℕ → Option ℤ → Grade → Grade
retotal db g none grade = grade
retotal db g (some _) grade = record grade { total_score = sum_final g db.criterion_scores }

abbrev pub is_none {ℓ} : {A : Type ℓ} → Option A → Bool
is_none none = true
is_none (some _) = false

unfoldable pub override_criterion :
    Db → ℕ → ℕ → ℕ → Option ℤ → Option String → Result (Db × GradeResponse)
unfolding respond check_teacher_score
override_criterion db g c t score feedback = do
  raise_if (is_none score && is_none feedback) (validation_error "teacher_score")
  grade ← load_grade_tenant_scoped db g t
  raise_if grade.is_locked Error.grade_locked
  x ← or_raise (get_where c (λ (x : CriterionScore). x.grade_id == g) db.criterion_scores) not_found
  check_teacher_score db grade x score
  let x' = set_feedback feedback (set_score score x)
  let grade' = retotal db g score grade
  let audit : AuditLog = record {
    teacher_id = some t;
    entity_type = EntityType.criterion_score;
    entity_id = c;
    action = score_override (score_value x) (score_value x');
  }
  let db' = record db {
    grades = put grade' db.grades;
    criterion_scores = put x' db.criterion_scores;
    audit_logs = db.audit_logs ++ audit ∷ [];
  }
  ok (db', respond db' grade')

-- UPDATE … WHERE id = … AND is_locked = FALSE: only one caller makes the transition. The second
-- argument is the clock.
unfoldable pub lock_grade : Db → ℕ → ℕ → ℕ → Result (Db × GradeResponse)
unfolding respond
lock_grade db now g t = do
  grade ← load_grade_tenant_scoped db g t
  let grade' = record grade { is_locked = true; locked_at = some now }
  let audit : AuditLog = record {
    teacher_id = some t;
    entity_type = EntityType.grade;
    entity_id = g;
    action = grade_locked;
  }
  let db' = record db { grades = put grade' db.grades; audit_logs = db.audit_logs ++ audit ∷ [] }
  ok (if grade.is_locked then (db, respond db grade) else (db', respond db' grade'))

abbrev is_about : ℕ → List ℕ → AuditLog → Bool
is_about g scores log = elim log.entity_type [
  | EntityType.grade ↦ log.entity_id == g
  | EntityType.criterion_score ↦ any (λ c. c == log.entity_id) scores
]

unfoldable pub get_grade_audit_log : Db → ℕ → ℕ → Result (List AuditLog)
unfolding load_criterion_scores
get_grade_audit_log db g t = do
  grade ← load_grade_tenant_scoped db g t
  let scores = map (λ (x : CriterionScore). x.id) (load_criterion_scores db grade.id)
  ok (select (is_about g scores) db.audit_logs)
