-- ===== src/Progress/Counts.antt =====
-- How a write of one essay's status moves the number of essays in each status.
use rubric_grading_engine.Prelude.{
  ℕ, suc, ◌+◌, ◌≤◌, String, ◌≡◌, refl, Bool, true, false, some, List, ◌∷◌, arith, ◌==◌,
  if◌then◌else◌, length, [],
}
use rubric_grading_engine.Progress.{
  Status, complete, failed, is, Item, status_of, set_status, set_error,
}

unfoldable pub count_status : Status → List Item → ℕ
count_status s [] = 0
count_status s (x ∷ xs) = let rest = count_status s xs in if is s x.status then suc rest else rest

-- 1 if the two are the same status.
abbrev pub one_if : Status → Status → ℕ
one_if s t = if is s t then 1 else 0

abbrev pub is_terminal : Status → Bool
is_terminal complete = true
is_terminal failed = true
is_terminal _ = false

pub count_status-set_status :
    (s : Status) (e : ℕ) (st old : Status) (xs : List Item)
    → status_of e xs ≡ some old
    → count_status s (set_status e st xs) + one_if s old ≡ count_status s xs + one_if s st
unfolding count_status status_of set_status
count_status-set_status s e st old [] h = cc
count_status-set_status s e st old (x ∷ xs) h =
    ground (arith, count_status-set_status s e st old xs)

pub length-set_status :
    (e : ℕ) (st old : Status) (xs : List Item)
    → status_of e xs ≡ some old
    → length (set_status e st xs) ≡ length xs
unfolding status_of set_status
length-set_status e st old [] h = cc
length-set_status e st old (x ∷ xs) h = ground (arith, length-set_status e st old xs)

pub status_of-set_status :
    (e e' : ℕ) (st : Status) (xs : List Item)
    → status_of e' (set_status e st xs) ≡ (if e == e' then some st else status_of e' xs)
unfolding status_of set_status
status_of-set_status e e' st [] = ground arith
status_of-set_status e e' st (x ∷ xs) = ground (arith, status_of-set_status e e' st xs)

-- The error code is another field: it changes no status.
pub status_of-set_error :
    (e e' : ℕ) (code : String) (xs : List Item)
    → status_of e' (set_error e code xs) ≡ status_of e' xs
unfolding status_of set_error
status_of-set_error e e' code [] = refl
status_of-set_error e e' code (x ∷ xs) = ground (arith, status_of-set_error e e' code xs)

pub count_status-set_error :
    (s : Status) (e : ℕ) (code : String) (xs : List Item)
    → count_status s (set_error e code xs) ≡ count_status s xs
unfolding count_status set_error
count_status-set_error s e code [] = refl
count_status-set_error s e code (x ∷ xs) = ground (arith, count_status-set_error s e code xs)

pub length-set_error :
    (e : ℕ) (code : String) (xs : List Item) → length (set_error e code xs) ≡ length xs
unfolding set_error
length-set_error e code [] = refl
length-set_error e code (x ∷ xs) = ground (arith, length-set_error e code xs)

-- The two terminal statuses exclude each other.
pub terminal-le-length :
    (xs : List Item) → count_status complete xs + count_status failed xs ≤ length xs
unfolding count_status
terminal-le-length [] = omega arith
terminal-le-length (x ∷ xs) = ground (arith, terminal-le-length xs)

abbrev pub AllTerminal : List Item → Type 0
AllTerminal [] = Unit
AllTerminal (x ∷ xs) = (is_terminal x.status ≡ true) × AllTerminal xs

pub terminal_all :
    (xs : List Item)
    → length xs ≤ count_status complete xs + count_status failed xs
    → AllTerminal xs
unfolding count_status
terminal_all [] h = tt
terminal_all (x ∷ xs) h = ground (arith, terminal_all xs, terminal-le-length xs)

pub all_terminal :
    (xs : List Item)
    → AllTerminal xs
    → count_status complete xs + count_status failed xs ≡ length xs
unfolding count_status
all_terminal [] h = omega arith
all_terminal (x ∷ xs) h = ground (arith, all_terminal xs h.1)
