-- ===== src/Assignments/Update.antt =====
-- What an accepted update changes.
use rubric_grading_engine.Prelude.{
  ℕ, ◌+◌, ◌≡◌, ◌≢◌, ◌↔◌, ◌⊎◌, inl, inr, Option, none, some, arith, Option-cases,
}
use rubric_grading_engine.Prelude.Results.{ok, Result-cases}
use rubric_grading_engine.Prelude.Tables.{get, put, key-get, get-put}
use rubric_grading_engine.Models.{Assignment, AssignmentStatus, assignment_row}
use rubric_grading_engine.Models.Store.{Db, get_assignment, owner_of_assignment}
use rubric_grading_engine.Assignments.{
  rank, Changes, or_else, new_status, new_tone, update_assignment,
}
use rubric_grading_engine.Assignments.Lifecycle.{validate_transition_iff}

pub get_assignment_iff :
    (db : Db) (t a : ℕ) (row : Assignment)
    → (get_assignment db t a ≡ ok row)
      ↔ ((get a db.assignments ≡ some row) × (owner_of_assignment db row ≡ some t))
unfolding get_assignment
get_assignment_iff db t a row = (
  λ h. elim (Option-cases (get a db.assignments)) [
    | inl gone ↦ ground arith
    | inr (found, here) ↦ elim (Option-cases (owner_of_assignment db found)) [
      | inl orphan ↦ ground arith
      | inr (o, owned) ↦ ground arith
    ]
  ],
  λ (here, owned). ground arith,
)

-- What an update asks for and gets, of the row `found`.
pub record Updated (db : Db) (t a : ℕ) (body : Changes) (db' : Db) (row found : Assignment)
    : Type 0 where
  pub there : get a db.assignments ≡ some found
  pub owned : owner_of_assignment db found ≡ some t
  pub statuses : new_status found.status body.status ≡ ok row.status
  pub tones : new_tone found.feedback_tone body.feedback_tone ≡ ok row.feedback_tone
  pub same_id : row.id ≡ found.id
  pub same_class : row.class_id ≡ found.class_id
  pub same_snapshot : row.rubric_snapshot ≡ found.rubric_snapshot
  pub titled : row.title ≡ or_else body.title found.title
  pub prompted : row.prompt ≡ or_else body.prompt found.prompt
  pub due : row.due_date ≡ or_else body.due_date found.due_date
  pub enabled :
      row.resubmission_enabled ≡ or_else body.resubmission_enabled found.resubmission_enabled
  pub written : db' ≡ record db { assignments = put row db.assignments }

pub update_inverse :
    (db : Db) (t a : ℕ) (body : Changes) (db' : Db) (row : Assignment)
    → update_assignment db t a body ≡ ok (db', row)
    → (found : Assignment) × Updated db t a body db' row found
unfolding update_assignment
update_inverse db t a body db' row h = elim (Result-cases (get_assignment db t a)) [
  | inr (e, failed) ↦ ground arith
  | inl (found, loaded) ↦ elim (Result-cases (new_status found.status body.status)) [
    | inr (e, failed) ↦ ground arith
    | inl (status, moved) ↦ elim (Result-cases (new_tone found.feedback_tone body.feedback_tone)) [
      | inr (e, failed) ↦ ground arith
      | inl (tone, toned) ↦ (found, ground (arith, get_assignment_iff db t a found))
    ]
  ]
]

-- A status that is kept, or moved one step on.
new_status-rank :
    (current : AssignmentStatus) (target : Option AssignmentStatus) (status : AssignmentStatus)
    → new_status current target ≡ ok status
    → ((target ≡ none) × (status ≡ current))
      ⊎ ((target ≡ some status) × (rank status ≡ rank current + 1))
unfolding new_status
new_status-rank current none status h = inl (ground arith)
new_status-rank current (some target) status h =
    inr (ground (arith, validate_transition_iff current target))

-- An accepted update keeps the rubric snapshot, and either asks for no status and keeps the one it
-- finds, or moves to the status asked for, the next of the lifecycle; the row that it returns is the
-- one stored, and no other assignment changes.
pub update_effect :
    (db : Db) (t a : ℕ) (body : Changes) (db' : Db) (row : Assignment)
    → update_assignment db t a body ≡ ok (db', row)
    → (found : Assignment) × (get a db.assignments ≡ some found)
      × (get a db'.assignments ≡ some row)
      × (row.rubric_snapshot ≡ found.rubric_snapshot)
      × (((body.status ≡ none) × (row.status ≡ found.status))
          ⊎ ((body.status ≡ some row.status) × (rank row.status ≡ rank found.status + 1)))
      × ((k : ℕ) → k ≢ a → get k db'.assignments ≡ get k db.assignments)
update_effect db t a body db' row h =
    let (found, u) = update_inverse db t a body db' row h in
    let id = key-get a found db.assignments u.there in
    (
      found,
      u.there,
      ground (arith, u.written, get-put a row db.assignments),
      u.same_snapshot,
      new_status-rank found.status body.status row.status u.statuses,
      λ k ne. ground (arith, u.written, get-put k row db.assignments),
    )
