-- ===== src/Grades/Coalesce.antt =====
-- models/grade.py: "final_score is always COALESCE(teacher_score, ai_score)".
use rubric_grading_engine.Prelude.{
  ℕ, String, ◌≡◌, inl, inr, Option, none, some, List, ◌∷◌, arith, ◌==◌, Bool-cases, All, [],
}
use rubric_grading_engine.Prelude.Int.{ℤ}
use rubric_grading_engine.Prelude.Results.{ok}
use rubric_grading_engine.Prelude.Tables.{get, put}
use rubric_grading_engine.Models.{CriterionScore, score_row}
use rubric_grading_engine.Models.Store.{Db}
use rubric_grading_engine.Grades.{GradeResponse, set_score, set_feedback, override_criterion}
use rubric_grading_engine.Grades.Override.{override_inverse}

abbrev pub coalesce : Option ℤ → ℤ → ℤ
coalesce none n = n
coalesce (some m) n = m

abbrev pub IsCoalesced : CriterionScore → Type 0
IsCoalesced x = x.final_score ≡ coalesce x.teacher_score x.ai_score

pub All-get :
    (P : CriterionScore → Type 0) (k : ℕ) (x : CriterionScore) (rows : List CriterionScore)
    → get k rows ≡ some x
    → All P rows
    → P x
unfolding get
All-get P k x [] h all = cc
All-get P k x (y ∷ rows) h all = elim (Bool-cases (y.id == k)) [
  | inl here ↦ let same : y ≡ x = ground arith in rw (← same) all.0
  | inr there ↦ All-get P k x rows (ground arith) all.1
]

pub All-put :
    (P : CriterionScore → Type 0) (x : CriterionScore) (rows : List CriterionScore)
    → P x
    → All P rows
    → All P (put x rows)
unfolding put
All-put P x [] p all = tt
All-put P x (y ∷ rows) p all = elim (Bool-cases (y.id == x.id)) [
  | inl here ↦ rw here (p, all.1)
  | inr there ↦ rw there (all.0, All-put P x rows p all.1)
]

-- An override keeps every final score equal to COALESCE(teacher_score, ai_score).
override-IsCoalesced :
    (db : Db) (g c t : ℕ) (score : Option ℤ) (feedback : Option String) (db' : Db)
    (r : GradeResponse)
    → All IsCoalesced db.criterion_scores
    → override_criterion db g c t score feedback ≡ ok (db', r)
    → All IsCoalesced db'.criterion_scores
override-IsCoalesced db g c t score feedback db' r all h =
    let (grade, x, e, checked, eq) = override_inverse db g c t score feedback db' r h in
    let old = All-get IsCoalesced c x db.criterion_scores e.scored all in
    rw eq (
      All-put IsCoalesced (set_feedback feedback (set_score score x)) db.criterion_scores
        (ground arith) all)
