-- ===== src/Grading/Bounds.antt =====
-- The whole way of one essay, from the model's answers to the stored grade: the total lies between
-- zero and the rubric's maximum.
use rubric_grading_engine.Prelude.{
  ℕ, suc, String, ◌≡◌, refl, ap, ◌∙◌, inl, inr, List, ◌∷◌, ◌++◌, map, arith, Option-cases, length,
  All, [],
}
use rubric_grading_engine.Prelude.Int.{pos, ◌≤ℤ◌, int_laws, sum_ℤ}
use rubric_grading_engine.Prelude.Results.{ok}
use rubric_grading_engine.Models.{Grade, CriterionScore, SnapshotCriterion}
use rubric_grading_engine.Models.Store.{Db}
use rubric_grading_engine.Parsing.Json.{Runtime}
use rubric_grading_engine.Parsing.Grading.{ParsedCriterionScore}
use rubric_grading_engine.Parsing.Clamping.{IsSound}
use rubric_grading_engine.Parsing.Answer.{AllSound, IsOrdered}
use rubric_grading_engine.LanguageModel.{Replies, call_grading}
use rubric_grading_engine.LanguageModel.Retries.{call_grading_sound}
use rubric_grading_engine.Grades.{sum_final}
use rubric_grading_engine.Grading.{Uuids, NewIds, Job, prepare, grade_essay, score_or_zero, info_of}
use rubric_grading_engine.Grading.Writes.{NotOf, max_of}
use rubric_grading_engine.Grading.Phases.{grade_essay-cases}

-- A criterion's bounds are in order and start at zero or above.
abbrev pub IsBounded : SnapshotCriterion → Type 0
IsBounded c = (pos 0 ≤ℤ c.min_score) × (c.min_score ≤ℤ c.max_score)

ordered :
    (u : Uuids) (cs : List SnapshotCriterion)
    → All IsBounded cs
    → All IsOrdered (map (info_of u) cs)
ordered u [] h = tt
ordered u (c ∷ cs) h = (h.0.1, ordered u cs h.1)

score_or_zero_range :
    (u : Uuids) (c : SnapshotCriterion) (p : ParsedCriterionScore)
    → IsBounded c
    → IsSound (info_of u c) p
    → (pos 0 ≤ℤ score_or_zero p) × (score_or_zero p ≤ℤ c.max_score)
score_or_zero_range u c p b s = elim (Option-cases p.score) [
  | inl missing ↦ (ground arith, ground arith)
  | inr (n, is) ↦ let range = s.in_range n is in (ground arith, ground arith)
]

sum_range :
    (u : Uuids) (cs : List SnapshotCriterion) (ps : List ParsedCriterionScore)
    → All IsBounded cs
    → AllSound (map (info_of u) cs) ps
    → (pos 0 ≤ℤ sum_ℤ (map score_or_zero ps))
      × (sum_ℤ (map score_or_zero ps) ≤ℤ sum_ℤ (map max_of cs))
      × (length ps ≡ length cs)
sum_range u [] [] b s = (omega arith, omega arith, refl)
sum_range u [] (p ∷ ps) b s = absurd s
sum_range u (c ∷ cs) [] b s = absurd s
sum_range u (c ∷ cs) (p ∷ ps) b s =
    let ih = sum_range u cs ps b.1 s.1 in
    let one = score_or_zero_range u c p b.0 s.0 in
    (grind (int_laws, ih.0, one), grind (int_laws, ih.1, one), ap suc ih.2)

-- When the rubric's bounds are in order and start at zero or above, a grading with the model that
-- succeeds, whatever the model wrote, has stored one score for each criterion, and a total that is
-- the sum of their final scores and lies between zero and the maximum. No stored row may have the
-- new grade's id.
pub graded_in_range :
    (u : Uuids) (ids : NewIds) (now : ℕ) (prompt : String) (py : Runtime) (max_retries : ℕ)
    (first corrective : Replies) (db : Db) (e t : ℕ) (strictness : String) (job : Job)
    (grade : Grade) (db' : Db)
    → All (NotOf ids.grade) db.criterion_scores
    → prepare db e t strictness ≡ ok job
    → All IsBounded job.assignment.rubric_snapshot.criteria
    → grade_essay u ids now prompt (call_grading py max_retries first corrective) db e t strictness
      ≡ (ok grade, db')
    → (pos 0 ≤ℤ grade.total_score)
      × (grade.total_score ≤ℤ grade.max_possible_score)
      × (grade.total_score ≡ sum_final ids.grade db'.criterion_scores)
      × ((rows : List CriterionScore) × (db'.criterion_scores ≡ db.criterion_scores ++ rows)
          × (length rows ≡ length job.assignment.rubric_snapshot.criteria))
graded_in_range u ids now prompt py max_retries first corrective db e t strictness job grade db'
      fresh prepared bounded done =
    let call = call_grading py max_retries first corrective in
    let criteria = job.assignment.rubric_snapshot.criteria in
    let cases =
      grade_essay-cases u ids now prompt call db e t strictness (ok grade) db' done job fresh
        prepared in
    elim cases [
      | inr (x, bad, left) ↦ absurd (cc)
      | inl (grade₁, answer, good, answered, w) ↦
          let same : grade₁ ≡ grade = cc in
          let sound =
            call_grading_sound py max_retries first corrective (map (info_of u) criteria) answer
              (ordered u criteria bounded) answered in
          let range = sum_range u criteria answer.criterion_scores bounded sound.0 in
          rw (← same) (
            rw w.sum range.0,
            rw (w.sum, w.max_possible) range.1,
            w.total,
            (w.rows, w.stored, w.one_each ∙ range.2),
          )
    ]
