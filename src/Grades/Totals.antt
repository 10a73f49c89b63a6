-- ===== src/Grades/Totals.antt =====
-- The grade's total after an override. The session does not flush before the query that adds the
-- final scores up, so the sum is over the rows as they were.
use rubric_grading_engine.Prelude.{
  ℕ, String, ◌≡◌, sym, ap, ◌∙◌, ◌↔◌, Option, some, List, ◌∷◌, arith, [],
}
use rubric_grading_engine.Prelude.Int.{ℤ, ◌+ℤ◌, int_laws, +ℤ_cancel_iff}
use rubric_grading_engine.Prelude.Results.{ok}
use rubric_grading_engine.Prelude.Tables.{get, put, key-get, get-put}
use rubric_grading_engine.Models.{Grade, CriterionScore, score_row, grade_row}
use rubric_grading_engine.Models.Store.{Db}
use rubric_grading_engine.Grades.{
  GradeResponse, set_score, set_feedback, override_criterion, sum_final,
}
use rubric_grading_engine.Grades.Override.{override_inverse, same_id}

-- A write of one row moves the sum by the change of its final score.
pub sum_final-put :
    (g : ℕ) (x x' : CriterionScore) (rows : List CriterionScore)
    → get x'.id rows ≡ some x
    → x.grade_id ≡ g
    → x'.grade_id ≡ g
    → sum_final g (put x' rows) +ℤ x.final_score ≡ sum_final g rows +ℤ x'.final_score
unfolding sum_final put get
sum_final-put g x x' [] h p q = cc
sum_final-put g x x' (y ∷ rows) h p q = grind (int_laws, sum_final-put g x x' rows)

final_is :
    (n : ℤ) (feedback : Option String) (x : CriterionScore)
    → (set_feedback feedback (set_score (some n) x)).final_score ≡ n
final_is n feedback x = ground arith

-- The criterion scores of the override's result, and its grade.
module _ (db : Db) (g c t : ℕ) (n : ℤ) (feedback : Option String) (db' : Db) (r : GradeResponse)
    (done : override_criterion db g c t (some n) feedback ≡ ok (db', r)) where
  -- After an override with a score, the stored total is the sum of the final scores before it.
  pub override_total :
      (grade : Grade)
      → get g db.grades ≡ some grade
      → get g db'.grades ≡ some (record grade { total_score = sum_final g db.criterion_scores })
  override_total grade found =
      let (grade₁, x, e, checked, eq) = override_inverse db g c t (some n) feedback db' r done in
      let same : grade₁ ≡ grade = cc (e.found, found) in
      let id_g = key-get g grade db.grades found in rw (eq, get-put, same) (ground arith)

  -- After a successful override with a score, the grade's stored total is the sum of the final
  -- scores that it has then exactly if that score was the criterion's final score before: otherwise
  -- the total is stale.
  pub override_total_stale :
      (grade' : Grade) (x : CriterionScore)
      → get g db'.grades ≡ some grade'
      → get c db.criterion_scores ≡ some x
      → (grade'.total_score ≡ sum_final g db'.criterion_scores) ↔ (n ≡ x.final_score)
  override_total_stale grade' x found' scored =
      let (grade, x₁, e, checked, eq) = override_inverse db g c t (some n) feedback db' r done in
      let same : x₁ ≡ x = cc (e.scored, scored) in
      let x' = set_feedback feedback (set_score (some n) x) in
      let ids = same_id (some n) feedback x in
      let id_x = key-get c x db.criterion_scores scored in
      let moved = sum_final-put g x x' db.criterion_scores in
      let total = override_total grade e.found in
      let tot : grade'.total_score ≡ sum_final g db.criterion_scores = ground arith in
      let rows : db'.criterion_scores ≡ put x' db.criterion_scores = rw (eq, same) in
      let new : sum_final g db'.criterion_scores +ℤ x.final_score
          ≡ sum_final g db.criterion_scores +ℤ n =
        rw rows (
          moved (cc (scored, ids.0, id_x))
            (ap (λ (y : CriterionScore). y.grade_id) (sym same) ∙ e.belongs) (ground arith)
          ∙ ap (λ (m : ℤ). sum_final g db.criterion_scores +ℤ m) (final_is n feedback x)) in
      let iff =
        +ℤ_cancel_iff (sum_final g db'.criterion_scores) (sum_final g db.criterion_scores)
          x.final_score n new in
      (λ h. sym (iff.0 (sym h ∙ tot)), λ h. tot ∙ sym (iff.1 (sym h)))
