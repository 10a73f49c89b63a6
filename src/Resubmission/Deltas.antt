-- ===== src/Resubmission/Deltas.antt =====
-- What the deltas of a comparison add up to.
use rubric_grading_engine.Prelude.{
  ℕ, ◌≡◌, refl, sym, ap, ◌∙◌, inl, inr, Bool, Option, none, some, List, [], ◌∷◌, map, arith, ◌==◌,
  ==_refl, Option-cases, All, All_map,
}
use rubric_grading_engine.Prelude.Int.{ℤ, pos, ◌+ℤ◌, ◌-ℤ◌, int_laws, sum_ℤ}
use rubric_grading_engine.Prelude.Results.{
  Error, not_found, ok, or_raise, >>=-eq-ok, ok-pair_injective,
}
use rubric_grading_engine.Prelude.Tables.{get, get_where}
use rubric_grading_engine.Models.{Grade, CriterionScore, version_row, grade_row}
use rubric_grading_engine.Models.Store.{Db}
use rubric_grading_engine.Resubmission.{
  Words, CriterionDelta, score_by_criterion, final_or_zero, criterion_delta, Assessment,
  RevisionComparison, Pair, scores_of_grade, build_comparison, compute_revision_comparison,
}

-- The sum of the final scores.
abbrev pub final_total : List CriterionScore → ℤ
final_total xs = sum_ℤ (map (λ (x : CriterionScore). x.final_score) xs)

abbrev pub delta_total : List CriterionDelta → ℤ
delta_total ds = sum_ℤ (map (λ (d : CriterionDelta). d.delta) ds)

-- Both lists score the same criteria, in the same order.
abbrev pub HaveSameCriteria : List CriterionScore → List CriterionScore → Type 0
HaveSameCriteria [] [] = Unit
HaveSameCriteria (x ∷ xs) (r ∷ rs) =
    (x.rubric_criterion_id ≡ r.rubric_criterion_id) × HaveSameCriteria xs rs
HaveSameCriteria _ _ = ⊥

-- No criterion is scored twice.
abbrev pub ScoreOnce : List CriterionScore → Type 0
ScoreOnce [] = Unit
ScoreOnce (r ∷ rs) = (score_by_criterion r.rubric_criterion_id rs ≡ none) × ScoreOnce rs

abbrev IsScored : List CriterionScore → CriterionScore → Type 0
IsScored rs x = (r : CriterionScore) × (score_by_criterion x.rubric_criterion_id rs ≡ some r)

-- The revised scores of the base's criteria.
abbrev revised_total : List CriterionScore → List CriterionScore → ℤ
revised_total rs [] = pos 0
revised_total rs (x ∷ xs) =
    final_or_zero (score_by_criterion x.rubric_criterion_id rs) +ℤ revised_total rs xs

scored_later :
    (r x : CriterionScore) (rs : List CriterionScore)
    → IsScored rs x
    → score_by_criterion x.rubric_criterion_id (r ∷ rs)
      ≡ score_by_criterion x.rubric_criterion_id rs
scored_later r x rs (s, is) = rw is refl

all-IsScored : (xs rs : List CriterionScore) → HaveSameCriteria xs rs → All (IsScored rs) xs
all-IsScored [] [] h = tt
all-IsScored (x ∷ xs) (r ∷ rs) h =
    let later = all-IsScored xs rs h.1 in
    (
      elim (Option-cases (score_by_criterion x.rubric_criterion_id rs)) [
        | inr (s, is) ↦ (s, rw is refl)
        | inl none_ ↦ (r, rw (none_, h.0, ==_refl r.rubric_criterion_id) refl)
      ],
      All_map xs (λ y scored. (scored.0, scored_later r y rs scored ∙ scored.1)) later,
    )
all-IsScored [] (r ∷ rs) h = absurd h
all-IsScored (x ∷ xs) [] h = absurd h

revised_total_tail :
    (r : CriterionScore) (rs xs : List CriterionScore)
    → All (IsScored rs) xs
    → revised_total (r ∷ rs) xs ≡ revised_total rs xs
revised_total_tail r rs [] h = refl
revised_total_tail r rs (x ∷ xs) h =
    let same = scored_later r x rs h.0 in
    ap (λ s. final_or_zero s +ℤ revised_total (r ∷ rs) xs) same
    ∙ ap (λ n. final_or_zero (score_by_criterion x.rubric_criterion_id rs) +ℤ n)
        (revised_total_tail r rs xs h.1)

revised-final_total :
    (xs rs : List CriterionScore)
    → HaveSameCriteria xs rs
    → ScoreOnce rs
    → revised_total rs xs ≡ final_total rs
revised-final_total [] [] h once = refl
revised-final_total (x ∷ xs) (r ∷ rs) h once =
    let none_ : score_by_criterion x.rubric_criterion_id rs ≡ none =
      ap (λ k. score_by_criterion k rs) h.0 ∙ once.0 in
    let first : score_by_criterion x.rubric_criterion_id (r ∷ rs) ≡ some r =
      rw (none_, h.0, ==_refl r.rubric_criterion_id) refl in
    let rest =
      revised_total_tail r rs xs (all-IsScored xs rs h.1) ∙ revised-final_total xs rs h.1 once.1 in
    ap (λ s. final_or_zero s +ℤ revised_total (r ∷ rs) xs) first ∙ ap (λ n. r.final_score +ℤ n) rest
revised-final_total [] (r ∷ rs) h once = absurd h
revised-final_total (x ∷ xs) [] h once = absurd h

delta-revised_total :
    (rs xs : List CriterionScore)
    → delta_total (map (criterion_delta rs) xs) ≡ revised_total rs xs -ℤ final_total xs
unfolding criterion_delta
delta-revised_total rs [] = omega int_laws
delta-revised_total rs (x ∷ xs) = rw (delta-revised_total rs xs) (omega int_laws)

-- A grade that is loaded under a condition is the grade that has the key.
loaded-get :
    (k : ℕ) (test : Grade → Bool) (grades : List Grade) (e : Error) (g x : Grade)
    → or_raise (get_where k test grades) e ≡ ok g
    → get k grades ≡ some x
    → g ≡ x
unfolding get_where
loaded-get k test grades e g x h found = ground arith

-- Once a comparison is computed of two grades that score the same criteria in the same order, each once,
-- and whose totals are the sums of their final scores, the deltas of the criteria add up to the delta of
-- the totals.
pub compute-delta_total :
    (words : Words) (answer : Option (List Assessment)) (db : Db)
    (comparisons after : List RevisionComparison) (id now : ℕ) (p : Pair) (base revised : Grade)
    (c : RevisionComparison)
    → compute_revision_comparison words answer db comparisons id now p ≡ ok (c, after)
    → get p.base_grade_id db.grades ≡ some base
    → get p.revised_grade_id db.grades ≡ some revised
    → base.total_score ≡ final_total (scores_of_grade db p.base_grade_id)
    → revised.total_score ≡ final_total (scores_of_grade db p.revised_grade_id)
    → HaveSameCriteria (scores_of_grade db p.base_grade_id) (scores_of_grade db p.revised_grade_id)
    → ScoreOnce (scores_of_grade db p.revised_grade_id)
    → delta_total c.criterion_deltas ≡ c.total_score_delta
unfolding compute_revision_comparison build_comparison
compute-delta_total words answer db comparisons after id now p base revised c built found found'
      total total' same once =
    let (row, row_is, end) = >>=-eq-ok (build_comparison words answer db id now p) _ built in
    let h : build_comparison words answer db id now p ≡ ok c =
      row_is ∙ ap ok (sym (ok-pair_injective row c (row ∷ comparisons) after end).0) in
    let (v, _, h1) =
      >>=-eq-ok
        (or_raise (get_where p.base_version_id (λ v. v.essay_id == p.essay_id) db.versions)
          not_found)
        _ h in
    let (w, _, h2) =
      >>=-eq-ok
        (or_raise (get_where p.revised_version_id (λ v. v.essay_id == p.essay_id) db.versions)
          not_found)
        _ h1 in
    let (g, g_is, h3) =
      >>=-eq-ok
        (or_raise
          (get_where p.base_grade_id (λ g. g.essay_version_id == p.base_version_id) db.grades)
          not_found)
        _ h2 in
    let (k, k_is, h4) =
      >>=-eq-ok
        (or_raise
          (get_where p.revised_grade_id (λ g. g.essay_version_id == p.revised_version_id) db.grades)
          not_found)
        _ h3 in
    let g_base =
      loaded-get p.base_grade_id (λ g. g.essay_version_id == p.base_version_id) db.grades not_found
        g base g_is found in
    let k_revised =
      loaded-get p.revised_grade_id (λ g. g.essay_version_id == p.revised_version_id) db.grades
        not_found k revised k_is found' in
    let base_scores = scores_of_grade db p.base_grade_id in
    let revised_scores = scores_of_grade db p.revised_grade_id in
    let deltas : c.criterion_deltas ≡ map (criterion_delta revised_scores) base_scores =
      grind arith in
    let totals : c.total_score_delta ≡ k.total_score -ℤ g.total_score = grind arith in
    let revised_is : revised.total_score ≡ revised_total revised_scores base_scores =
      total' ∙ sym (revised-final_total base_scores revised_scores same once) in
    ap delta_total deltas
    ∙ delta-revised_total revised_scores base_scores
    ∙ sym (totals ∙ rw (g_base, k_revised, revised_is, total) refl)
