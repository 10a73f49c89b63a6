-- ===== src/Tasks/Review.antt =====
-- When an assignment moves to review: with the last outcome of its batch, and only once.
use rubric_grading_engine.Prelude.{
  ℕ, ◌+◌, ◌≤◌, ◌<◌, String, ◌≡◌, refl, ap, ◌∙◌, ◌↔◌, ◌⊎◌, inl, inr, true, false, ◌&&◌, Option, some,
  arith, ◌==◌, ==_iff, Bool-cases, Option-cases, length,
}
use rubric_grading_engine.Prelude.Int.{pos, ◌+ℤ◌}
use rubric_grading_engine.Prelude.Tables.{get, get_where, put, key-get, get-put}
use rubric_grading_engine.Models.{Assignment, AssignmentStatus, review, assignment_row}
use rubric_grading_engine.Models.Store.{Db, is_owner, owner_of_assignment}
use rubric_grading_engine.Progress.{
  Status, complete, failed, is, complete_in, fail_in, Hash, Counters, status_of, counters,
  mark_essay_complete, mark_essay_failed,
}
use rubric_grading_engine.Progress.Counts.{count_status, AllTerminal, terminal_all, all_terminal}
use rubric_grading_engine.Progress.Initial.{IsAccurate}
use rubric_grading_engine.Progress.Marks.{
  Accurate, mark_essay_complete-Accurate, mark_essay_failed-Accurate,
}
use rubric_grading_engine.Batch.{World}
use rubric_grading_engine.Tasks.{
  is_batch_complete, in_grading, transition_assignment_to_review, report, update_redis_on_success,
  update_redis_on_failure,
}

is_batch_complete-numbers :
    (t c f : ℕ) (k : Counters)
    → k ≡ record { total = t; complete = pos c; failed = pos f }
    → (is_batch_complete k ≡ true) ↔ ((0 < t) × (t ≤ c + f))
unfolding is_batch_complete ◌+ℤ◌
is_batch_complete-numbers t c f k is = (λ h. ground arith, λ h. ground arith)

-- The counters that are read from an accurate hash say that the batch is complete exactly if it has
-- an essay and all its essays have an outcome.
pub is_batch_complete_iff :
    (h : Hash)
    → IsAccurate h
    → (is_batch_complete (counters (length h.items) h) ≡ true)
      ↔ ((0 < length h.items) × AllTerminal h.items)
unfolding counters
is_batch_complete_iff h acc =
    let c = count_status complete h.items in
    let f = count_status failed h.items in
    let numbers =
      is_batch_complete-numbers (length h.items) c f (counters (length h.items) h)
        (ground (arith, acc.of_complete, acc.of_failed)) in
    (
      λ e. let (some_, all) = numbers.0 e in (some_, terminal_all h.items all),
      λ (some_, all). numbers.1 (some_, omega (arith, all_terminal h.items all)),
    )

-- What a marking script leaves and returns: an accurate hash, and the counters read from it.
abbrev Marked : Option Hash × Counters → Type 0
Marked m = (h : Hash) × (m ≡ (some h, counters (length h.items) h)) × IsAccurate h

complete_in-total : (e : ℕ) (s : Option Status) (h : Hash) → (complete_in e s h).total ≡ h.total
unfolding complete_in
complete_in-total e s h = ground arith

fail_in-total :
    (e : ℕ) (code : String) (s : Option Status) (h : Hash) → (fail_in e code s h).total ≡ h.total
unfolding fail_in
fail_in-total e code s h = ground arith

marked :
    (n : ℕ) (m : Option Hash × Counters) (h : Hash)
    → m ≡ (some h, counters n h)
    → h.total ≡ some n
    → Accurate m.0
    → Marked m
marked n m h is total kept =
    let acc : IsAccurate h = rw (ap (λ (o : Option Hash × Counters). o.0) is) at kept in
    let same : n ≡ length h.items = cc (total, acc.of_total) in
    (h, is ∙ ap (λ (k : ℕ). (some h, counters k h)) same, acc)

module _ (e : ℕ) (h : Hash) (old : Status) (acc : IsAccurate h)
    (at : status_of e h.items ≡ some old) where
  mark_essay_complete-Marked : is failed old ≡ false → Marked (mark_essay_complete e (some h))
  unfolding mark_essay_complete
  mark_essay_complete-Marked fresh =
      let h₁ = complete_in e (status_of e h.items) h in
      let same = complete_in-total e (status_of e h.items) h in
      marked (length h.items) (mark_essay_complete e (some h)) h₁ (rw acc.of_total refl)
        (same ∙ acc.of_total) (mark_essay_complete-Accurate e h old acc at fresh)

  mark_essay_failed-Marked :
      (code : String) → is complete old ≡ false → Marked (mark_essay_failed e code (some h))
  unfolding mark_essay_failed
  mark_essay_failed-Marked code fresh =
      let h₁ = fail_in e code (status_of e h.items) h in
      let same = fail_in-total e code (status_of e h.items) h in
      marked (length h.items) (mark_essay_failed e code (some h)) h₁ (rw acc.of_total refl)
        (same ∙ acc.of_total) (mark_essay_failed-Accurate e h old acc at code fresh)

-- What a report leaves: an accurate hash, and the assignment's transition if the batch is done.
abbrev pub Reported : World → World → ℕ → ℕ → Type 0
Reported w w' a t =
    (h : Hash) × (w'.redis a ≡ some h)
    × IsAccurate h
    × ((0 < length h.items) × AllTerminal h.items
        → w'.db ≡ transition_assignment_to_review w.db a t)
    × (¬ ((0 < length h.items) × AllTerminal h.items) → w'.db ≡ w.db)

report-Reported :
    (a t : ℕ) (m : Option Hash × Counters) (w : World) → Marked m → Reported w (report a t m w) a t
unfolding report
report-Reported a t m w (h, is, acc) =
    let iff = is_batch_complete_iff h acc in
    let k = counters (length h.items) h in
    rw is (elim (Bool-cases (is_batch_complete k)) [
      | inl done ↦ (
        h,
        ground arith,
        acc,
        λ all. rw done refl,
        λ open_batch. absurd (open_batch (iff.0 done)),
      )
      | inr pending ↦
          (h, ground arith, acc, λ all. absurd (ground (arith, iff.1 all)), λ _. rw pending refl)
    ])

module _ (e a t : ℕ) (w : World) (h : Hash) (old : Status) (there : w.redis a ≡ some h)
    (acc : IsAccurate h) (at : status_of e h.items ≡ some old) where
  -- A success reported for an essay of an accurate hash that has not failed leaves an accurate hash;
  -- the assignment gets its transition to review if then all essays of the batch have an outcome,
  -- and else the database is unchanged.
  pub update_redis_on_success-Reported :
      is failed old ≡ false → Reported w (update_redis_on_success e a t w) a t
  unfolding update_redis_on_success
  update_redis_on_success-Reported fresh = rw there (
      report-Reported a t (mark_essay_complete e (some h)) w
        (mark_essay_complete-Marked e h old acc at fresh))

  -- A failure reported for an essay of an accurate hash that is not complete leaves an accurate hash;
  -- the assignment gets its transition to review if then all essays of the batch have an outcome,
  -- and else the database is unchanged.
  pub update_redis_on_failure-Reported :
      (code : String)
      → is complete old ≡ false
      → Reported w (update_redis_on_failure e a t code w) a t
  unfolding update_redis_on_failure
  update_redis_on_failure-Reported code fresh = rw there (
      report-Reported a t (mark_essay_failed e code (some h)) w
        (mark_essay_failed-Marked e h old acc at code fresh))

abbrev moved : Db → Assignment → Db
moved db x = record db { assignments = put (record x { status = review }) db.assignments }

transition-cases :
    (db : Db) (a t : ℕ)
    → (transition_assignment_to_review db a t ≡ db)
      ⊎ ((x : Assignment) × (get a db.assignments ≡ some x)
          × (x.status ≡ AssignmentStatus.grading)
          × (owner_of_assignment db x ≡ some t)
          × (transition_assignment_to_review db a t ≡ moved db x))
unfolding transition_assignment_to_review get_where
transition-cases db a t = elim (Option-cases (get a db.assignments)) [
  | inl gone ↦ inl (ground arith)
  | inr (x, here) ↦
      elim (Bool-cases (in_grading x.status && is_owner (owner_of_assignment db x) t)) [
        | inl fit ↦ inr (x, here, ground arith, ground arith, ground arith)
        | inr unfit ↦ inl (ground arith)
      ]
]

transition-moved :
    (db : Db) (a t : ℕ) (x : Assignment)
    → get a db.assignments ≡ some x
    → transition_assignment_to_review (moved db x) a t ≡ moved db x
unfolding transition_assignment_to_review get_where
transition-moved db a t x here = ground (
  arith,
  get-put a (record x { status = review }) db.assignments,
  key-get a x db.assignments here,
)

-- The transition changes no assignment but the named one, and that one only from grading to review
-- and only for the teacher who owns it; a second transition changes nothing at all.
pub transition_once :
    (db : Db) (a t b : ℕ)
    → let db' = transition_assignment_to_review db a t in
      (transition_assignment_to_review db' a t ≡ db')
      × ((get b db'.assignments ≡ get b db.assignments)
          ⊎ ((b ≡ a)
              × ((x : Assignment) × (get a db.assignments ≡ some x)
                  × (x.status ≡ AssignmentStatus.grading)
                  × (owner_of_assignment db x ≡ some t)
                  × (get a db'.assignments ≡ some (record x { status = review })))))
transition_once db a t b = elim (transition-cases db a t) [
  | inl still ↦ (ap (λ d. transition_assignment_to_review d a t) still, inl (rw still refl))
  | inr (x, here, status, owner, to) ↦ (
    rw to (transition-moved db a t x here),
    elim (Bool-cases (b == a)) [
      | inl same ↦ inr (
        (==_iff b a).0 same,
        (
          x,
          here,
          status,
          owner,
          ground (
            arith,
            to,
            get-put a (record x { status = review }) db.assignments,
            key-get a x db.assignments here,
          ),
        ),
      )
      | inr other ↦ inl (
          ground (
            arith,
            to,
            get-put b (record x { status = review }) db.assignments,
            key-get a x db.assignments here,
          ))
    ],
  )
]
