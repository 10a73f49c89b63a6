-- ===== src/Grading/Rows.antt =====
-- The rows that a grading inserts: one for each parsed score, of its grade, coalesced, and with the
-- scores that make up the total.
use rubric_grading_engine.Prelude.{
  ℕ, suc, ◌+◌, ◌≡◌, refl, ap, inl, inr, List, ◌∷◌, ◌++◌, map, arith, Option-cases, length, All, [],
}
use rubric_grading_engine.Prelude.Int.{sum_ℤ}
use rubric_grading_engine.Prelude.Results.{ok, >>=-eq-ok}
use rubric_grading_engine.Models.{CriterionScore, AuditLog}
use rubric_grading_engine.Parsing.Grading.{ParsedCriterionScore}
use rubric_grading_engine.Grades.{sum_final}
use rubric_grading_engine.Grades.Coalesce.{IsCoalesced}
use rubric_grading_engine.Grading.{Uuids, NewIds, score_row_of, rows_of, score_or_zero, clamp_logs}

abbrev pub OfGrade : ℕ → CriterionScore → Type 0
OfGrade g x = x.grade_id ≡ g

module _ (u : Uuids) (ids : NewIds) where
  rows_of-cons :
      (i : ℕ) (p : ParsedCriterionScore) (scores : List ParsedCriterionScore)
      (rows : List CriterionScore) (logs : List AuditLog)
      → rows_of u ids i (p ∷ scores) ≡ ok (rows, logs)
      → (row : CriterionScore) × (rest : List CriterionScore) × (others : List AuditLog)
        × (score_row_of u ids.grade (ids.score i) p ≡ ok row)
        × (rows_of u ids (i + 1) scores ≡ ok (rest, others))
        × (rows ≡ row ∷ rest)
        × (logs ≡ clamp_logs row p ++ others)
  unfolding rows_of
  rows_of-cons i p scores rows logs h =
      let (row, made, rest) = >>=-eq-ok (score_row_of u ids.grade (ids.score i) p) _ h in
      let ((rows', others), made', is) = >>=-eq-ok (rows_of u ids (i + 1) scores) _ rest in
      (row, rows', others, made, made', ground arith, ground arith)

  score_row_of-fields :
      (id : ℕ) (p : ParsedCriterionScore) (row : CriterionScore)
      → score_row_of u ids.grade id p ≡ ok row
      → OfGrade ids.grade row × IsCoalesced row × (row.final_score ≡ score_or_zero p)
  unfolding score_row_of
  score_row_of-fields id p row h = elim (Option-cases (u.read p.criterion_id)) [
    | inl bad ↦ ground arith
    | inr (c, read) ↦ ground arith
  ]

  pub rows_of-fields :
      (i : ℕ) (scores : List ParsedCriterionScore) (rows : List CriterionScore)
      (logs : List AuditLog)
      → rows_of u ids i scores ≡ ok (rows, logs)
      → All (OfGrade ids.grade) rows
        × All IsCoalesced rows
        × (sum_final ids.grade rows ≡ sum_ℤ (map score_or_zero scores))
        × (length rows ≡ length scores)
  unfolding sum_final rows_of
  rows_of-fields i [] rows logs h = let is : rows ≡ [] = ground arith in rw is (tt, tt, refl, refl)
  rows_of-fields i (p ∷ scores) rows logs h =
      let (row, rest, others, made, made', is, _) = rows_of-cons i p scores rows logs h in
      let fields = score_row_of-fields (ids.score i) p row made in
      let ih = rows_of-fields (i + 1) scores rest others made' in
      rw is ((fields.0, ih.0), (fields.1, ih.1), ground (arith, ih.2), ap suc ih.3)
