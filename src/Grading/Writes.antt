-- ===== src/Grading/Writes.antt =====
-- The writes of a grading: the essay's status, and the second transaction.
use mathlib.Core.Path.{subst}
use mathlib.Core.Path.{subst}
use rubric_grading_engine.Prelude.{
  ℕ, String, ◌≡◌, refl, ◌≢◌, ◌⊎◌, inl, inr, false, Option, some, List, ◌∷◌, ◌++◌, map, arith,
  Option-cases, length, All, [],
}
use rubric_grading_engine.Prelude.Int.{ℤ, pos, ◌+ℤ◌, int_laws, sum_ℤ}
use rubric_grading_engine.Prelude.Results.{
  Error, not_found, conflict, ok, err, or_raise, >>=-eq-ok, Result-cases,
}
use rubric_grading_engine.Prelude.Tables.{get, get_where, get-put}
use rubric_grading_engine.Models.{
  Essay, EssayStatus, queued, graded, Grade, CriterionScore, SnapshotCriterion, essay_row,
  assignment_row,
}
use rubric_grading_engine.Models.Store.{Db, load_essay_tenant_scoped, is_owner, owner_of_assignment}
use rubric_grading_engine.Parsing.Grading.{ParsedGradingResponse}
use rubric_grading_engine.Grades.{sum_final, grade_of_version, latest_version}
use rubric_grading_engine.Grades.Coalesce.{IsCoalesced}
use rubric_grading_engine.Grading.{
  Uuids, NewIds, Job, rows_of, grade_of, prepare, set_status, check_queued, write_grade,
  score_or_zero, strictness_of,
}
use rubric_grading_engine.Grading.Rows.{OfGrade, rows_of-fields}

abbrev pub NotOf : ℕ → CriterionScore → Type 0
NotOf g x = x.grade_id ≢ g

pub sum_final-append :
    (g : ℕ) (xs ys : List CriterionScore)
    → sum_final g (xs ++ ys) ≡ sum_final g xs +ℤ sum_final g ys
unfolding sum_final
sum_final-append g [] ys = omega int_laws
sum_final-append g (x ∷ xs) ys = grind (int_laws, sum_final-append g xs ys)

pub sum_final-NotOf : (g : ℕ) (xs : List CriterionScore) → All (NotOf g) xs → sum_final g xs ≡ pos 0
unfolding sum_final
sum_final-NotOf g [] h = refl
sum_final-NotOf g (x ∷ xs) h = ground (arith, sum_final-NotOf g xs h.1)

pub get-set_status :
    (db : Db) (e : ℕ) (st : EssayStatus) (essay old : Essay)
    → get e db.essays ≡ some old
    → essay.id ≡ e
    → get e (set_status db st essay).essays ≡ some (record essay { status = st })
get-set_status db e st essay old found same =
    ground (arith, get-put e (record essay { status = st }) db.essays)

-- What was loaded and checked for a job.
pub record Prepared (db : Db) (e t : ℕ) (strictness : String) (job : Job) : Type 0 where
  pub level : strictness_of strictness ≡ ok job.level
  pub loaded : load_essay_tenant_scoped db e t ≡ ok job.essay
  pub version : or_raise (latest_version db e) not_found ≡ ok job.version
  pub assignment :
      get_where job.essay.assignment_id (λ x. is_owner (owner_of_assignment db x) t) db.assignments
      ≡ some job.assignment
  pub checked : check_queued job.essay.status ≡ ok tt

or_raise-eq-ok : {A : Type 0} (o : Option A) (x : Error) (a : A) → or_raise o x ≡ ok a → o ≡ some a
or_raise-eq-ok o x a h = ground arith

pub prepare-inverse :
    (db : Db) (e t : ℕ) (strictness : String) (job : Job)
    → prepare db e t strictness ≡ ok job
    → Prepared db e t strictness job
unfolding prepare
prepare-inverse db e t strictness job h =
    let (level, leveled, r₁) = >>=-eq-ok (strictness_of strictness) _ h in
    let (essay, loaded, r₂) = >>=-eq-ok (load_essay_tenant_scoped db e t) _ r₁ in
    let (version, versioned, r₃) = >>=-eq-ok (or_raise (latest_version db e) not_found) _ r₂ in
    let assigned =
      get_where essay.assignment_id (λ x. is_owner (owner_of_assignment db x) t) db.assignments in
    let (assignment, found, r₄) = >>=-eq-ok (or_raise assigned not_found) _ r₃ in
    let (_, checked, made) = >>=-eq-ok (check_queued essay.status) _ r₄ in
    let is : record { essay = essay; version = version; assignment = assignment; level = level }
        ≡ job =
      ground arith in
    subst (Prepared db e t strictness) is (record {
      level = leveled;
      loaded = loaded;
      version = versioned;
      assignment = or_raise-eq-ok assigned not_found assignment found;
      checked = checked;
    })

-- The essay with a status of its own, among the essays of a database.
abbrev pub Shows : Db → ℕ → Essay → EssayStatus → Type 0
Shows db e essay st = get e db.essays ≡ some (record essay { status = st })

-- Nothing but the essays can differ.
abbrev pub SameGrades : Db → Db → Type 0
SameGrades db db' =
    (db'.grades ≡ db.grades)
    × (db'.criterion_scores ≡ db.criterion_scores)
    × (db'.audit_logs ≡ db.audit_logs)

abbrev pub max_of : SnapshotCriterion → ℤ
max_of c = c.max_score

-- The rows of the new grade, whose scores add up to its total.
pub record Written (u : Uuids) (ids : NewIds) (db db' : Db) (e : ℕ) (job : Job)
    (answer : ParsedGradingResponse) (grade : Grade) : Type 0 where
  pub rows : List CriterionScore
  pub of_grade : All (OfGrade ids.grade) rows
  pub coalesced : All IsCoalesced rows
  pub one_each : length rows ≡ length answer.criterion_scores
  pub stored : db'.criterion_scores ≡ db.criterion_scores ++ rows
  pub grades : db'.grades ≡ db.grades ++ grade ∷ []
  pub unlocked : grade.is_locked ≡ false
  pub max_possible :
      grade.max_possible_score ≡ sum_ℤ (map max_of job.assignment.rubric_snapshot.criteria)
  pub total : grade.total_score ≡ sum_final ids.grade db'.criterion_scores
  pub sum : grade.total_score ≡ sum_ℤ (map score_or_zero answer.criterion_scores)
  pub shows : Shows db' e job.essay graded

-- The grading failed, and the essay is left as grading; or its version has a grade already, and the
-- essay is queued again.
abbrev pub LeftOver : Db → Db → ℕ → Job → Error → Type 0
LeftOver db db' e job x =
    SameGrades db db'
    × (Shows db' e job.essay EssayStatus.grading
        ⊎ ((x ≡ conflict)
            × Shows db' e job.essay queued
            × ((old : Grade) × (grade_of_version db job.version.id ≡ some old))))

module _ (u : Uuids) (ids : NewIds) (now : ℕ) (prompt : String) (db : Db) (e : ℕ) (job : Job)
    (answer : ParsedGradingResponse) (old : Essay) (there : get e db.essays ≡ some old)
    (same : job.essay.id ≡ e) where
  pub write_grade-Written :
      (grade : Grade) (db' : Db)
      → All (NotOf ids.grade) db.criterion_scores
      → write_grade u ids now prompt db job answer ≡ (ok grade, db')
      → Written u ids db db' e job answer grade
  unfolding write_grade grade_of
  write_grade-Written grade db' fresh h = elim (Option-cases (grade_of_version db job.version.id)) [
    | inr (g, exists) ↦ absurd (ground arith)
    | inl absent ↦ elim (Result-cases (rows_of u ids 0 answer.criterion_scores)) [
      | inr (x, bad) ↦ absurd (ground arith)
      | inl ((rows, logs), made) ↦
          let fields = rows_of-fields u ids 0 answer.criterion_scores rows logs made in
          let is : db'.criterion_scores ≡ db.criterion_scores ++ rows = ground arith in
          let sum : grade.total_score ≡ sum_ℤ (map score_or_zero answer.criterion_scores) =
            ground arith in
          let old_sum = sum_final-NotOf ids.grade db.criterion_scores fresh in
          let split = sum_final-append ids.grade db.criterion_scores rows in
          record {
            rows = rows;
            of_grade = fields.0;
            coalesced = fields.1;
            one_each = fields.3;
            stored = is;
            grades = ground arith;
            unlocked = ground arith;
            max_possible = ground arith;
            total = rw is (grind (int_laws, sum, old_sum, split, fields.2));
            sum = sum;
            shows = ground (arith, get-set_status db e graded job.essay old there same);
          }
    ]
  ]

  pub write_grade-LeftOver :
      (x : Error) (db' : Db)
      → old ≡ record job.essay { status = EssayStatus.grading }
      → write_grade u ids now prompt db job answer ≡ (err x, db')
      → LeftOver db db' e job x
  unfolding write_grade
  write_grade-LeftOver x db' was h = elim (Option-cases (grade_of_version db job.version.id)) [
    | inr (g, exists) ↦
        let back = get-set_status db e queued job.essay old there same in
        ((ground arith, ground arith, ground arith), inr (ground arith, ground arith, (g, exists)))
    | inl absent ↦ elim (Result-cases (rows_of u ids 0 answer.criterion_scores)) [
      | inr (_, bad) ↦ ((ground arith, ground arith, ground arith), inl (ground arith))
      | inl ((rows, logs), made) ↦ absurd (ground arith)
    ]
  ]
