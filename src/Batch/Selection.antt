-- ===== src/Batch/Selection.antt =====
-- The essays that a trigger selects, and the tasks that the broker accepts of them.
use rubric_grading_engine.Prelude.{
  ℕ, zero, suc, ◌<◌, String, ◌≡◌, sym, ap, ◌∙◌, ◌≢◌, inl, inr, Bool, true, Option, none, some, List,
  ◌∷◌, ◌++◌, map, arith, Bool-cases, length, select, All, [],
}
use rubric_grading_engine.Prelude.Results.{Error, outage, ok, err}
use rubric_grading_engine.Models.{Essay, queued}
use rubric_grading_engine.Models.Store.{Db, owner_of_essay}
use rubric_grading_engine.Progress.Initial.{Distinct}
use rubric_grading_engine.Batch.{Task, is_selected, is_in_batch, pair_of, enqueue_all}

-- The essays that a batch may hold.
pub record InBatch (db : Db) (a t : ℕ) (essay_ids : Option (List ℕ)) (e : Essay) : Type 0 where
  pub of_assignment : e.assignment_id ≡ a
  pub is_waiting : e.status ≡ queued
  pub owned : owner_of_essay db e ≡ some t
  pub selected : is_selected essay_ids e.id ≡ true

is_in_batch-InBatch :
    (db : Db) (a t : ℕ) (essay_ids : Option (List ℕ)) (e : Essay)
    → is_in_batch db a t essay_ids e ≡ true
    → InBatch db a t essay_ids e
unfolding is_in_batch
is_in_batch-InBatch db a t essay_ids e h = record {
  of_assignment = ground arith;
  is_waiting = ground arith;
  owned = ground arith;
  selected = ground arith;
}

pub select-All :
    (db : Db) (a t : ℕ) (essay_ids : Option (List ℕ)) (es : List Essay)
    → All (InBatch db a t essay_ids) (select (is_in_batch db a t essay_ids) es)
select-All db a t essay_ids [] = tt
select-All db a t essay_ids (e ∷ es) =
    let rest = select-All db a t essay_ids es in
    elim (Bool-cases (is_in_batch db a t essay_ids e)) [
      | inl taken ↦ rw taken (is_in_batch-InBatch db a t essay_ids e taken, rest)
      | inr left ↦ rw left rest
    ]

abbrev Other : ℕ → Essay → Type 0
Other i e = e.id ≢ i

-- The primary key of the essays.
abbrev pub UniqueIds : List Essay → Type 0
UniqueIds [] = Unit
UniqueIds (e ∷ es) = All (Other e.id) es × UniqueIds es

select-Other :
    (p : Essay → Bool) (i : ℕ) (es : List Essay) → All (Other i) es → All (Other i) (select p es)
select-Other p i [] h = tt
select-Other p i (e ∷ es) h = elim (Bool-cases (p e)) [
  | inl taken ↦ rw taken (h.0, select-Other p i es h.1)
  | inr left ↦ rw left (select-Other p i es h.1)
]

pub select-UniqueIds : (p : Essay → Bool) (es : List Essay) → UniqueIds es → UniqueIds (select p es)
select-UniqueIds p [] h = tt
select-UniqueIds p (e ∷ es) h = elim (Bool-cases (p e)) [
  | inl taken ↦ rw taken (select-Other p e.id es h.0, select-UniqueIds p es h.1)
  | inr left ↦ rw left (select-UniqueIds p es h.1)
]

pairs-Other :
    (db : Db) (i : ℕ) (es : List Essay)
    → All (Other i) es
    → All (λ (p : ℕ × Option String). p.0 ≢ i) (map (pair_of db) es)
pairs-Other db i [] h = tt
pairs-Other db i (e ∷ es) h = (h.0, pairs-Other db i es h.1)

pub pairs-Distinct : (db : Db) (es : List Essay) → UniqueIds es → Distinct (map (pair_of db) es)
pairs-Distinct db [] h = tt
pairs-Distinct db (e ∷ es) h = (pairs-Other db e.id es h.0, pairs-Distinct db es h.1)

pub enqueue_all-ok :
    (broker : Option ℕ) (tasks sent : List Task)
    → enqueue_all broker tasks ≡ (ok tt, sent)
    → sent ≡ tasks
unfolding enqueue_all
enqueue_all-ok none tasks sent h = ground arith
enqueue_all-ok (some n) [] sent h = ground arith
enqueue_all-ok (some zero) (task ∷ tasks) sent h = absurd (ground arith)
enqueue_all-ok (some (suc n)) (task ∷ tasks) sent h =
    let ih = enqueue_all-ok (some n) tasks (enqueue_all (some n) tasks).1 in ground arith

pub enqueue_all-err :
    (broker : Option ℕ) (tasks sent : List Task) (x : Error)
    → enqueue_all broker tasks ≡ (err x, sent)
    → (x ≡ outage) × ((rest : List Task) × (tasks ≡ sent ++ rest) × (0 < length rest))
unfolding enqueue_all
enqueue_all-err none tasks sent x h = absurd (ground arith)
enqueue_all-err (some n) [] sent x h = absurd (ground arith)
enqueue_all-err (some zero) (task ∷ tasks) sent x h =
    let is : sent ≡ [] = ground arith in
    (ground arith, (task ∷ tasks, ap (λ (s : List Task). s ++ task ∷ tasks) (sym is), omega arith))
enqueue_all-err (some (suc n)) (task ∷ tasks) sent x h =
    let sent' = (enqueue_all (some n) tasks).1 in
    let is : sent ≡ task ∷ sent' = ground arith in
    let again : enqueue_all (some n) tasks ≡ (err x, sent') = ground arith in
    let (out, (rest, split, some_)) = enqueue_all-err (some n) tasks sent' x again in
    (
      out,
      (
        rest,
        ap (λ (s : List Task). task ∷ s) split ∙ ap (λ (s : List Task). s ++ rest) (sym is),
        some_,
      ),
    )
