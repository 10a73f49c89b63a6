-- ===== src/Grading/Phases.antt =====
-- What a grading leaves in the database, on each way that it can end.
use mathlib.Core.Path.{subst}
use rubric_grading_engine.Prelude.{
  ℕ, String, ◌≡◌, refl, ap, ◌∙◌, ◌⊎◌, inl, inr, List, ◌∷◌, ◌++◌, map, arith, All, [],
}
use rubric_grading_engine.Prelude.Results.{Error, Result, ok, err, Result-cases}
use rubric_grading_engine.Prelude.Tables.{key-get}
use rubric_grading_engine.Models.{EssayStatus, Grade, essay_row}
use rubric_grading_engine.Models.Store.{Db, load_essay_iff}
use rubric_grading_engine.Parsing.Grading.{CriterionInfo, ParsedGradingResponse}
use rubric_grading_engine.Grades.{grade_of_version}
use rubric_grading_engine.Grading.{
  Uuids, NewIds, Job, prepare, set_status, write_grade, grade_essay, info_of,
}
use rubric_grading_engine.Grading.Writes.{
  NotOf, Written, LeftOver, get-set_status, prepare-inverse, write_grade-Written,
  write_grade-LeftOver,
}

-- What was written does not depend on the essays as they were.
of_db :
    {u : Uuids} {ids : NewIds} (db₁ db' : Db) (e : ℕ) (job : Job) (answer : ParsedGradingResponse)
    (grade : Grade) (db : Db)
    → db₁ ≡ record db { essays = db₁.essays }
    → Written u ids db₁ db' e job answer grade
    → Written u ids db db' e job answer grade
of_db db₁ db' e job answer grade db same w = record {
  rows = w.rows;
  of_grade = w.of_grade;
  coalesced = w.coalesced;
  one_each = w.one_each;
  stored = w.stored ∙ ap (λ (d : Db). d.criterion_scores ++ w.rows) same;
  grades = w.grades ∙ ap (λ (d : Db). d.grades ++ grade ∷ []) same;
  unlocked = w.unlocked;
  max_possible = w.max_possible;
  total = w.total;
  sum = w.sum;
  shows = w.shows;
}

module _ (u : Uuids) (ids : NewIds) (now : ℕ) (prompt : String)
    (call : List CriterionInfo → Result ParsedGradingResponse) (db : Db) (e t : ℕ)
    (strictness : String) (r : Result Grade) (db' : Db)
    (done : grade_essay u ids now prompt call db e t strictness ≡ (r, db')) where
  -- A grading that is refused before the model is called changes nothing.
  pub refused_unchanged : (x : Error) → prepare db e t strictness ≡ err x → (r ≡ err x) × (db' ≡ db)
  unfolding grade_essay
  refused_unchanged x refused = (ground arith, ground arith)

  -- A grading that gets as far as the model either writes one coalesced row for each entry of the
  -- model's answer and a grade whose total is the sum of their final scores, and leaves the essay
  -- graded; or it fails with the grades, scores and log unchanged, and the essay is left as grading,
  -- or queued where its version has a grade already. No stored row may have the new grade's id.
  pub grade_essay-cases :
      (job : Job)
      → All (NotOf ids.grade) db.criterion_scores
      → prepare db e t strictness ≡ ok job
      → ((grade : Grade) × (answer : ParsedGradingResponse) × (r ≡ ok grade)
          × (call (map (info_of u) job.assignment.rubric_snapshot.criteria) ≡ ok answer)
          × Written u ids db db' e job answer grade)
        ⊎ ((x : Error) × (r ≡ err x) × LeftOver db db' e job x)
  unfolding grade_essay grade_of_version
  grade_essay-cases job fresh prepared =
      let loaded = (prepare-inverse db e t strictness job prepared).loaded in
      let there = ((load_essay_iff db e t job.essay).0 loaded).0 in
      let same = key-get e job.essay db.essays there in
      let db₁ = set_status db EssayStatus.grading job.essay in
      let now_grading = get-set_status db e EssayStatus.grading job.essay job.essay there same in
      elim (Result-cases (call (map (info_of u) job.assignment.rubric_snapshot.criteria))) [
        | inr (x, failed) ↦
            let left : LeftOver db db₁ e job x = ((refl, refl, refl), inl now_grading) in
            let at : db₁ ≡ db' = ground arith in
            inr (x, ground arith, subst (λ d. LeftOver db d e job x) at left)
        | inl (answer, answered) ↦
            let is : write_grade u ids now prompt db₁ job answer ≡ (r, db') = ground arith in
            elim (Result-cases r) [
              | inl (grade, good) ↦ inl (
                grade,
                answer,
                good,
                answered,
                of_db db₁ db' e job answer grade db refl (
                    write_grade-Written u ids now prompt db₁ e job answer
                      (record job.essay { status = EssayStatus.grading }) now_grading same grade db'
                      fresh (is ∙ ap (λ (o : Result Grade). (o, db')) good)),
              )
              | inr (x, bad) ↦ inr (
                x,
                bad,
                write_grade-LeftOver u ids now prompt db₁ e job answer
                    (record job.essay { status = EssayStatus.grading }) now_grading same x db' refl
                    (is ∙ ap (λ (o : Result Grade). (o, db')) bad),
              )
            ]
      ]
