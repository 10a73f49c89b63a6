-- ===== src/Assignments/Lifecycle.antt =====
-- The lifecycle draft → open → grading → review → complete → returned.
use rubric_grading_engine.Prelude.{ℕ, ◌+◌, ◌≤◌, ◌≡◌, ◌↔◌, arith}
use rubric_grading_engine.Prelude.Results.{ok}
use rubric_grading_engine.Models.{AssignmentStatus}
use rubric_grading_engine.Assignments.{rank, validate_transition}

-- A transition is accepted exactly when it goes to the next status of the lifecycle.
pub validate_transition_iff :
    (a b : AssignmentStatus) → (validate_transition a b ≡ ok tt) ↔ (rank b ≡ rank a + 1)
unfolding validate_transition
validate_transition_iff a b = ground arith

-- Statuses that an assignment goes through by accepted transitions.
pub data Advance (a : AssignmentStatus) : AssignmentStatus → Type 0 where
  here : Advance a a
  next : {b c : AssignmentStatus} → Advance a b → validate_transition b c ≡ ok tt → Advance a c

pub steps : {a b : AssignmentStatus} → Advance a b → ℕ
steps here = 0
steps (next path ok_) = steps path + 1

rank-le : (a : AssignmentStatus) → rank a ≤ 5
rank-le a = ground arith

steps-rank : (a b : AssignmentStatus) (path : Advance a b) → rank b ≡ rank a + steps path
unfolding steps
steps-rank a b here = omega arith
steps-rank a c (next {b = b} path accepted) =
    omega (arith, (validate_transition_iff b c).0 accepted, steps-rank a b path)

-- The number of accepted transitions between two statuses is their distance in the lifecycle: none
-- is skipped, repeated or undone, and an assignment makes at most five.
pub advance_distance :
    (a b : AssignmentStatus) (path : Advance a b)
    → (rank b ≡ rank a + steps path) × (steps path ≤ 5)
advance_distance a b path = (steps-rank a b path, omega (arith, steps-rank a b path, rank-le b))
