-- ===== src/Progress/Initial.antt =====
-- The hash that `initialize_progress` writes.
use rubric_grading_engine.Prelude.{
  ℕ, ◌+◌, String, ◌≡◌, refl, sym, ap, ◌≢◌, Option, some, List, ◌∷◌, arith, length, All, [],
}
use rubric_grading_engine.Prelude.Int.{pos}
use rubric_grading_engine.Progress.{
  queued, complete, failed, Item, Hash, enter, enter_all, initialize_progress,
}
use rubric_grading_engine.Progress.Counts.{count_status}

-- The counters say how many essays have each outcome, and the total how many essays there are.
pub record IsAccurate (h : Hash) : Type 0 where
  pub of_total : h.total ≡ some (length h.items)
  pub of_complete : h.complete ≡ some (pos (count_status complete h.items))
  pub of_failed : h.failed ≡ some (pos (count_status failed h.items))

-- No two of the batch's pairs are about one essay.
abbrev pub Distinct : List (ℕ × Option String) → Type 0
Distinct [] = Unit
Distinct ((e, _) ∷ essays) = All (λ (p : ℕ × Option String). p.0 ≢ e) essays × Distinct essays

abbrev pub AllQueued : List Item → Type 0
AllQueued [] = Unit
AllQueued (x ∷ xs) = (x.status ≡ queued) × AllQueued xs

count-AllQueued :
    (xs : List Item) → AllQueued xs → (count_status complete xs ≡ 0) × (count_status failed xs ≡ 0)
unfolding count_status
count-AllQueued [] h = (refl, refl)
count-AllQueued (x ∷ xs) h = ground (arith, count-AllQueued xs h.1)

enter-AllQueued :
    (e : ℕ) (name : Option String) (xs : List Item) → AllQueued xs → AllQueued (enter e name xs)
unfolding enter
enter-AllQueued e name [] h = (refl, tt)
enter-AllQueued e name (x ∷ xs) h = ground (arith, enter-AllQueued e name xs h.1)

enter_all-AllQueued :
    (essays : List (ℕ × Option String)) (xs : List Item)
    → AllQueued xs
    → AllQueued (enter_all essays xs)
unfolding enter_all
enter_all-AllQueued [] xs h = h
enter_all-AllQueued ((e, name) ∷ essays) xs h =
    enter_all-AllQueued essays (enter e name xs) (enter-AllQueued e name xs h)

-- No item is about the essay.
abbrev Absent : ℕ → List Item → Type 0
Absent e [] = Unit
Absent e (x ∷ xs) = (x.id ≢ e) × Absent e xs

length-enter :
    (e : ℕ) (name : Option String) (xs : List Item)
    → Absent e xs
    → length (enter e name xs) ≡ length xs + 1
unfolding enter
length-enter e name [] h = omega arith
length-enter e name (x ∷ xs) h = ground (arith, length-enter e name xs h.1)

Absent-enter :
    (e e' : ℕ) (name : Option String) (xs : List Item)
    → e ≢ e'
    → Absent e' xs
    → Absent e' (enter e name xs)
unfolding enter
Absent-enter e e' name [] ne h = (ne, tt)
Absent-enter e e' name (x ∷ xs) ne h = ground (arith, Absent-enter e e' name xs ne h.1)

abbrev AllAbsent : List (ℕ × Option String) → List Item → Type 0
AllAbsent [] xs = Unit
AllAbsent ((e, _) ∷ essays) xs = Absent e xs × AllAbsent essays xs

AllAbsent-enter :
    (e : ℕ) (name : Option String) (essays : List (ℕ × Option String)) (xs : List Item)
    → All (λ (p : ℕ × Option String). p.0 ≢ e) essays
    → AllAbsent essays xs
    → AllAbsent essays (enter e name xs)
AllAbsent-enter e name [] xs ne h = tt
AllAbsent-enter e name ((e', _) ∷ essays) xs ne h =
    (Absent-enter e e' name xs (λ p. ne.0 (sym p)) h.0, AllAbsent-enter e name essays xs ne.1 h.1)

length-enter_all :
    (essays : List (ℕ × Option String)) (xs : List Item)
    → Distinct essays
    → AllAbsent essays xs
    → length (enter_all essays xs) ≡ length xs + length essays
unfolding enter_all
length-enter_all [] xs d h = omega arith
length-enter_all ((e, name) ∷ essays) xs d h =
    let entered = length-enter e name xs h.0 in
    let ih =
      length-enter_all essays (enter e name xs) d.1 (AllAbsent-enter e name essays xs d.0 h.1) in
    omega (arith, entered, ih)

AllAbsent-nil : (essays : List (ℕ × Option String)) → AllAbsent essays []
AllAbsent-nil [] = tt
AllAbsent-nil (_ ∷ essays) = (tt, AllAbsent-nil essays)

-- A new batch of distinct essays has an accurate hash, in which every essay is queued.
pub initialize_progress-IsAccurate :
    (essays : List (ℕ × Option String))
    → Distinct essays
    → IsAccurate (initialize_progress essays) × AllQueued (initialize_progress essays).items
unfolding initialize_progress
initialize_progress-IsAccurate essays d =
    let all = enter_all-AllQueued essays [] tt in
    let none_done = count-AllQueued (enter_all essays []) all in
    let size = length-enter_all essays [] d (AllAbsent-nil essays) in
    (
      record {
        of_total = ap some (omega (arith, size));
        of_complete = rw none_done.0;
        of_failed = rw none_done.1;
      },
      all,
    )
