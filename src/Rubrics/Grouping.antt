-- ===== src/Rubrics/Grouping.antt =====
-- The batch of list_rubrics gives each rubric the criteria that a query for it alone gives.
use rubric_grading_engine.Prelude.{◌≡◌, false, List, [], ◌∷◌, All}
use rubric_grading_engine.Rubrics.{RubricCriterion}
use rubric_grading_engine.Rubrics.Listing.{is_before_in_batch}

-- Rows in the order of the batch: none comes before an earlier one.
abbrev InBatchOrder : List RubricCriterion → Type 0
InBatchOrder [] = Unit
InBatchOrder (x ∷ xs) = All (λ y. is_before_in_batch y x ≡ false) xs × InBatchOrder xs
