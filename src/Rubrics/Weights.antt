-- ===== src/Rubrics/Weights.antt =====
-- The weights that a created rubric stores.
use rubric_grading_engine.Prelude.{
  ℕ, suc, ◌+◌, ◌*◌, ◌%◌, String, ◌≡◌, refl, ap, ◌∙◌, map, select, ◌↔◌, inl, inr, Bool, ◌&&◌, Option,
  List, [], ◌∷◌, arith, ltb, ◌==◌, if◌then◌else◌, ==_iff, Bool-cases, count_if,
}
use rubric_grading_engine.Prelude.Results.{Result, ok, ok-pair_injective}
use rubric_grading_engine.Rubrics.{
  CriterionObject, Written, build_criteria_orm, row_of, is_of, get_criteria_for_rubric, add_rubric,
  RubricCriterion, Decimal, RubricCriterionRequest, Library, quantize, total_weight,
  validate_weight_sum, build_criteria, new_rubric, create_rubric,
}
use rubric_grading_engine.Rubrics.Reading.{get-build_criteria}

-- A Numeric(5, 2) column rounds half away from zero, as its documentation says.
abbrev pub RoundsHalfUp : (Decimal → ℕ) → Type 0
RoundsHalfUp column =
    (d : Decimal)
    → column d ≡ (if ltb (2 * d.digits) d.scale then d.hundredths else d.hundredths + 1)

-- Half of a hundredth above an even number of hundredths: the two roundings differ.
abbrev pub is_even_tie : Decimal → Bool
is_even_tie d = 2 * d.digits == d.scale && d.hundredths % 2 == 0

abbrev pub even_ties : List RubricCriterionRequest → ℕ
even_ties requests = count_if (λ c. is_even_tie c.weight) requests

abbrev pub stored_weight : List RubricCriterion → ℕ
stored_weight [] = 0
stored_weight (c ∷ cs) = c.weight + stored_weight cs

column_tie :
    (column : Decimal → ℕ) (d : Decimal)
    → RoundsHalfUp column
    → column d ≡ quantize d + (if is_even_tie d then 1 else 0)
unfolding quantize
column_tie column d rounds = rw (rounds d) (ground arith)

stored-build :
    (column : Decimal → ℕ) (new_id : ℕ → ℕ) (k i : ℕ) (requests : List RubricCriterionRequest)
    → RoundsHalfUp column
    → stored_weight (build_criteria column new_id k i requests)
      ≡ total_weight requests + even_ties requests
unfolding build_criteria_orm
stored-build column new_id k i [] rounds = refl
stored-build column new_id k i (c ∷ cs) rounds =
    let rest = stored-build column new_id k (suc i) cs rounds in
    let first = column_tie column c.weight rounds in
    elim (Bool-cases (is_even_tie c.weight)) [
      | inl tie ↦ rw (first, rest, tie) (omega arith)
      | inr no_tie ↦ rw (first, rest, no_tie) (omega arith)
    ]

weights_requested :
    (new_id : ℕ → ℕ) (k i : ℕ) (requests : List RubricCriterionRequest)
    → map (λ (c : CriterionObject). c.weight) (build_criteria_orm new_id k i requests)
      ≡ map (λ (c : RubricCriterionRequest). c.weight) requests
unfolding build_criteria_orm
weights_requested new_id k i [] = refl
weights_requested new_id k i (c ∷ cs) =
    ap (λ ws. c.weight ∷ ws) (weights_requested new_id k (suc i) cs)

-- A rubric that is created under an id that no criterion has yet, with a column that rounds half away
-- from zero: the weights of the rows that are then read of it sum to 100.00 and one hundredth for each
-- requested weight that lies half of a hundredth above an even number of hundredths, since the check
-- rounds such a weight down and the column rounds it up. So they sum to 100.00 exactly if no requested
-- weight is such a one. The criteria that the creation returns carry the weights that were requested.
pub create-stored_weight :
    (column : Decimal → ℕ) (new_id : ℕ → ℕ) (now : ℕ) (lib lib' : Library) (k t : ℕ) (name : String)
    (description : Option String) (requests : List RubricCriterionRequest) (written : Written)
    → RoundsHalfUp column
    → select (is_of k) lib.criteria ≡ []
    → create_rubric column new_id now lib k t name description requests ≡ ok (lib', written)
    → let stored = stored_weight (get_criteria_for_rubric lib'.criteria k) in
      (stored ≡ 10000 + even_ties requests)
      × ((stored ≡ 10000) ↔ (even_ties requests ≡ 0))
      × (map (λ (c : CriterionObject). c.weight) written.1
          ≡ map (λ (c : RubricCriterionRequest). c.weight) requests)
unfolding create_rubric validate_weight_sum
create-stored_weight column new_id now lib lib' k t name description requests written rounds unused
      h =
    let sum = stored-build column new_id k 0 requests rounds in
    elim (Bool-cases (total_weight requests == 10000)) [
      | inl exact ↦
          let total = (==_iff (total_weight requests) 10000).0 exact in
          let rubric = new_rubric now k t name description in
          let criteria = build_criteria_orm new_id k 0 requests in
          let returned : ◌≡◌ {A = Result (Library × Written)}
              (ok (add_rubric lib rubric (map (row_of column) criteria), (rubric, criteria)))
              (ok (lib', written)) =
            ground (arith, h, exact) in
          let (table, made) = ok-pair_injective _ lib' _ written returned in
          let read : get_criteria_for_rubric lib'.criteria k
              ≡ build_criteria column new_id k 0 requests =
            ap (λ (l : Library). get_criteria_for_rubric l.criteria k) table
            ∙ get-build_criteria column new_id k requests lib.criteria unused in
          rw (made, read, sum, total)
            (refl, (λ e. omega arith, λ e. omega arith), weights_requested new_id k 0 requests)
      | inr wrong ↦ absurd (ground (arith, h, wrong))
    ]
