-- ===== src/Assignments.antt =====
-- backend/app/services/assignment.py: the lifecycle of an assignment, and its update. The update is
-- made in memory and reaches the database at its commit, so one that raises changes nothing.
pub mod Lifecycle
pub mod Update
use text.Mathlib.Text.{◌==◌ as str_eq}
use rubric_grading_engine.Prelude.{ℕ, String, Bool, not, Option, none, some, ◌==◌, if◌then◌else◌}
use rubric_grading_engine.Prelude.Results.{
  invalid_transition, validation_error, Result, ok, err, raise_if, or_raise, ◌>>=◌, ◌>>◌,
}
use rubric_grading_engine.Prelude.Tables.{put}
use rubric_grading_engine.Models.{
  Assignment, AssignmentStatus, draft, open_, grading, review, complete, returned, FeedbackTone,
  encouraging, direct, academic, assignment_row,
}
use rubric_grading_engine.Models.Store.{Db, get_assignment}

-- `_VALID_TRANSITIONS.get(current)`
unfoldable pub next_status : AssignmentStatus → Option AssignmentStatus
next_status draft = some AssignmentStatus.open_
next_status AssignmentStatus.open_ = some AssignmentStatus.grading
next_status AssignmentStatus.grading = some review
next_status review = some complete
next_status complete = some AssignmentStatus.returned
next_status AssignmentStatus.returned = none

-- The position of a status in the lifecycle.
abbrev pub rank : AssignmentStatus → ℕ
rank draft = 0
rank AssignmentStatus.open_ = 1
rank AssignmentStatus.grading = 2
rank review = 3
rank complete = 4
rank AssignmentStatus.returned = 5

abbrev pub same_status : AssignmentStatus → AssignmentStatus → Bool
same_status a b = rank a == rank b

unfoldable pub validate_transition : AssignmentStatus → AssignmentStatus → Result (Unit {0})
unfolding next_status
validate_transition current target = do
  raise_if (same_status target current) invalid_transition
  allowed ← or_raise (next_status current) invalid_transition
  raise_if (not (same_status target allowed)) invalid_transition

-- `FeedbackTone(text)`
unfoldable pub tone_of : String → Result FeedbackTone
tone_of text =
    if str_eq text "encouraging"
    then ok encouraging
    else if str_eq text "direct"
    then ok direct
    else if str_eq text "academic"
    then ok academic
    else err (validation_error "feedback_tone")

-- What an update may set. A prompt and a due date come with the flag that says to set them, since
-- they may be set to nothing: the outer option is that flag.
pub record Changes : Type 0 where
  pub title : Option String
  pub prompt : Option (Option String)
  pub due_date : Option (Option ℕ)
  pub status : Option AssignmentStatus
  pub feedback_tone : Option String
  pub resubmission_enabled : Option Bool

abbrev pub or_else {ℓ} : {A : Type ℓ} → Option A → A → A
or_else none a = a
or_else (some b) a = b

unfoldable pub new_status : AssignmentStatus → Option AssignmentStatus → Result AssignmentStatus
unfolding validate_transition
new_status current none = ok current
new_status current (some target) = do validate_transition current target; ok target

unfoldable pub new_tone : FeedbackTone → Option String → Result FeedbackTone
unfolding tone_of
new_tone current none = ok current
new_tone current (some text) = tone_of text

unfoldable pub update_assignment : Db → ℕ → ℕ → Changes → Result (Db × Assignment)
update_assignment db t a body = do
  found ← get_assignment db t a
  status ← new_status found.status body.status
  tone ← new_tone found.feedback_tone body.feedback_tone
  let found' = record found {
    title = or_else body.title found.title;
    prompt = or_else body.prompt found.prompt;
    due_date = or_else body.due_date found.due_date;
    status = status;
    feedback_tone = tone;
    resubmission_enabled = or_else body.resubmission_enabled found.resubmission_enabled;
  }
  ok (record db { assignments = put found' db.assignments }, found')
