-- ===== src/Batch/Status.antt =====
-- What the batch's status says of its essays, when the counters are accurate.
use rubric_grading_engine.Prelude.{
  ℕ, suc, ◌+◌, ◌≤◌, ◌<◌, ◌≡◌, refl, sym, ap, ◌∙◌, ◌↔◌, inl, inr, true, some, List, ◌∷◌, arith, ltb,
  ltb→lt, Bool-cases, length, [],
}
use rubric_grading_engine.Prelude.Int.{pos, ◌+ℤ◌}
use rubric_grading_engine.Progress.{
  Status, complete, failed, is, Item, Hash, BatchProgress, get_progress,
}
use rubric_grading_engine.Progress.Counts.{
  count_status, AllTerminal, terminal_all, all_terminal, terminal-le-length,
}
use rubric_grading_engine.Progress.Initial.{IsAccurate}
use rubric_grading_engine.Batch.{BatchStatus, processing, derive_batch_status}

abbrev pub AllAre : Status → List Item → Type 0
AllAre s [] = Unit
AllAre s (x ∷ xs) = (x.status ≡ s) × AllAre s xs

is_iff : (s t : Status) → (is s t ≡ true) ↔ (t ≡ s)
is_iff s t = ground arith

count-le-length : (s : Status) (xs : List Item) → count_status s xs ≤ length xs
unfolding count_status
count-le-length s [] = omega arith
count-le-length s (x ∷ xs) = ground (arith, count-le-length s xs)

count_all : (s : Status) (xs : List Item) → count_status s xs ≡ length xs → AllAre s xs
unfolding count_status
count_all s [] h = tt
count_all s (x ∷ xs) h = elim (Bool-cases (is s x.status)) [
  | inl same ↦ ((is_iff s x.status).0 same, count_all s xs (ground arith))
  | inr other ↦ absurd (ground (arith, count-le-length s xs))
]

all_count : (s : Status) (xs : List Item) → AllAre s xs → count_status s xs ≡ length xs
unfolding count_status
all_count s [] h = refl
all_count s (x ∷ xs) h =
    let same = (is_iff s x.status).1 h.0 in rw same (ap suc (all_count s xs h.1))

derive_numbers :
    (p : BatchProgress) (c f : ℕ)
    → p.complete ≡ pos c
    → p.failed ≡ pos f
    → c + f ≤ p.total
    → 0 < p.total
    → ((derive_batch_status p ≡ processing) ↔ (c + f < p.total))
      × ((derive_batch_status p ≡ BatchStatus.complete) ↔ (c ≡ p.total))
      × ((derive_batch_status p ≡ BatchStatus.failed) ↔ (f ≡ p.total))
unfolding derive_batch_status ◌+ℤ◌
derive_numbers p c f hc hf le some_ = (ground arith, ground arith, ground arith)

-- For an accurate hash with at least one essay, the batch is processing exactly while some essay has
-- no outcome, complete exactly if all essays are complete, and failed exactly if all have failed.
pub derive_batch_status_iff :
    (h : Hash) (p : BatchProgress)
    → IsAccurate h
    → 0 < length h.items
    → get_progress (some h) ≡ some p
    → ((derive_batch_status p ≡ processing) ↔ (¬ AllTerminal h.items))
      × ((derive_batch_status p ≡ BatchStatus.complete) ↔ AllAre complete h.items)
      × ((derive_batch_status p ≡ BatchStatus.failed) ↔ AllAre failed h.items)
unfolding get_progress
derive_batch_status_iff h p acc nonempty read =
    let c = count_status complete h.items in
    let f = count_status failed h.items in
    let total : p.total ≡ length h.items = ground (arith, acc.of_total) in
    let numbers =
      derive_numbers p c f (ground (arith, acc.of_complete)) (ground (arith, acc.of_failed))
        (rw total (terminal-le-length h.items)) (rw total nonempty) in
    (
      (
        λ e all. omega (arith, numbers.0.0 e, all_terminal h.items all, total),
        λ pending. numbers.0.1 (elim (Bool-cases (ltb (c + f) p.total)) [
          | inl less ↦ ltb→lt (c + f) p.total less
          | inr not_less ↦ absurd (pending (terminal_all h.items (ground (arith, total))))
        ]),
      ),
      (
        λ e. count_all complete h.items (numbers.1.0 e ∙ total),
        λ all. numbers.1.1 (all_count complete h.items all ∙ sym total),
      ),
      (
        λ e. count_all failed h.items (numbers.2.0 e ∙ total),
        λ all. numbers.2.1 (all_count failed h.items all ∙ sym total),
      ),
    )
