-- ===== src/Timeline/Sessions.antt =====
-- The sessions: groups of neighbours, which a gap divides.
use rubric_grading_engine.Prelude.{
  ℕ, suc, ◌≡◌, refl, ap, inl, inr, Bool, true, false, List, [], ◌∷◌, ◌++◌, arith, if◌then◌else◌,
  Bool-cases, length, length-append,
}
use rubric_grading_engine.Prelude.Int.{sub_ℕ, pos, leb_ℤ}
use mathlib.Core.List.{append_assoc}
use rubric_grading_engine.Timeline.{ParsedSnap, SessionSegment}
use rubric_grading_engine.Timeline.Analysis.{last_of, make_session, segment}

-- A session's snapshots: the first and the others.
abbrev pub Group : Type 0
Group = ParsedSnap × List ParsedSnap

abbrev pub concat : List Group → List ParsedSnap
concat [] = []
concat ((first, others) ∷ groups) = first ∷ (others ++ concat groups)

-- One session for each group, numbered from `i`.
abbrev pub numbered : ℕ → List Group → List SessionSegment
numbered i [] = []
numbered i ((first, others) ∷ groups) = make_session first others i ∷ numbered (suc i) groups

-- Whether `y` is at least the gap after `x`.
abbrev pub is_apart : ℕ → ParsedSnap → ParsedSnap → Bool
is_apart gap x y = leb_ℤ (pos gap) (sub_ℕ y.ts x.ts)

-- Each snapshot is less than the gap after the one before it.
abbrev pub AreClose : ℕ → ParsedSnap → List ParsedSnap → Type 0
AreClose gap x [] = Unit
AreClose gap x (y ∷ ys) = (is_apart gap x y ≡ false) × AreClose gap y ys

-- The group after the snapshot, if there is one, begins at least the gap later.
abbrev pub IsFar : ℕ → ParsedSnap → List Group → Type 0
IsFar gap x [] = Unit
IsFar gap x ((y, others) ∷ groups) = is_apart gap x y ≡ true

-- Neighbours in a group are close, neighbours across groups are not.
abbrev pub IsDivided : ℕ → List Group → Type 0
IsDivided gap [] = Unit
IsDivided gap ((first, others) ∷ groups) =
    AreClose gap first others × IsFar gap (last_of first others) groups × IsDivided gap groups

-- The groups that the loop makes of the current group and the snapshots to come.
unfoldable pub divide : ℕ → ParsedSnap → List ParsedSnap → List ParsedSnap → List Group
divide gap first current [] = (first, current) ∷ []
divide gap first current (x ∷ xs) =
    let apart = divide gap x [] xs in
    let joined = divide gap first (current ++ (x ∷ [])) xs in
    if is_apart gap (last_of first current) x then (first, current) ∷ apart else joined

-- The loop's sessions are those of its groups.
pub segment-numbered :
    (gap : ℕ) (sessions : List SessionSegment) (first : ParsedSnap) (current xs : List ParsedSnap)
    → segment gap sessions first current xs
      ≡ sessions ++ numbered (length sessions) (divide gap first current xs)
unfolding segment divide
segment-numbered gap sessions first current [] = refl
segment-numbered gap sessions first current (x ∷ xs) =
    elim (Bool-cases (is_apart gap (last_of first current) x)) [
      | inl apart ↦
          let made = make_session first current (length sessions) in
          let count : length (sessions ++ (made ∷ [])) ≡ suc (length sessions) =
            omega (arith, length-append sessions (made ∷ [])) in
          let rest = segment-numbered gap (sessions ++ (made ∷ [])) x [] xs in
          rw (apart, rest, count)
            (append_assoc sessions (made ∷ [])
              (numbered (suc (length sessions)) (divide gap x [] xs)))
      | inr close ↦ ground (arith, segment-numbered gap sessions first (current ++ (x ∷ [])) xs)
    ]

concat-divide :
    (gap : ℕ) (first : ParsedSnap) (current xs : List ParsedSnap)
    → concat (divide gap first current xs) ≡ first ∷ (current ++ xs)
unfolding divide
concat-divide gap first current [] = refl
concat-divide gap first current (x ∷ xs) =
    elim (Bool-cases (is_apart gap (last_of first current) x)) [
      | inl apart ↦ rw (apart, concat-divide gap x [] xs) refl
      | inr close ↦
          rw (close, concat-divide gap first (current ++ (x ∷ [])) xs)
            (ap (λ rest. first ∷ rest) (append_assoc current (x ∷ []) xs))
    ]

last-snoc :
    (first : ParsedSnap) (current : List ParsedSnap) (x : ParsedSnap)
    → last_of first (current ++ (x ∷ [])) ≡ x
last-snoc first [] x = refl
last-snoc first (y ∷ ys) x = last-snoc y ys x

close-snoc :
    (gap : ℕ) (first : ParsedSnap) (current : List ParsedSnap) (x : ParsedSnap)
    → AreClose gap first current
    → is_apart gap (last_of first current) x ≡ false
    → AreClose gap first (current ++ (x ∷ []))
close-snoc gap first [] x h c = (c, tt)
close-snoc gap first (y ∷ ys) x h c = (h.0, close-snoc gap y ys x h.1 c)

divide-IsFar :
    (gap : ℕ) (before first : ParsedSnap) (current xs : List ParsedSnap)
    → is_apart gap before first ≡ true
    → IsFar gap before (divide gap first current xs)
unfolding divide
divide-IsFar gap before first current [] h = h
divide-IsFar gap before first current (x ∷ xs) h =
    elim (Bool-cases (is_apart gap (last_of first current) x)) [
      | inl apart ↦ rw apart h
      | inr close ↦ rw close (divide-IsFar gap before first (current ++ (x ∷ [])) xs h)
    ]

divide-IsDivided :
    (gap : ℕ) (first : ParsedSnap) (current xs : List ParsedSnap)
    → AreClose gap first current
    → IsDivided gap (divide gap first current xs)
unfolding divide
divide-IsDivided gap first current [] h = (h, tt, tt)
divide-IsDivided gap first current (x ∷ xs) h =
    elim (Bool-cases (is_apart gap (last_of first current) x)) [
      | inl apart ↦ rw apart (
        h,
        divide-IsFar gap (last_of first current) x [] xs apart,
        divide-IsDivided gap x [] xs tt,
      )
      | inr close ↦ rw close (
          divide-IsDivided gap first (current ++ (x ∷ [])) xs
            (close-snoc gap first current x h close))
    ]

-- The sessions of a nonempty list of snapshots, in order, are made of groups of neighbours: the groups
-- one after another are the list, each snapshot of a group is less than the gap after the one before it,
-- and each group begins at least the gap after the last snapshot of the group before it. The sessions
-- are numbered from 0.
pub segment_groups :
    (gap : ℕ) (first : ParsedSnap) (xs : List ParsedSnap)
    → (groups : List Group) × (segment gap [] first [] xs ≡ numbered 0 groups)
      × (concat groups ≡ first ∷ xs)
      × IsDivided gap groups
segment_groups gap first xs = (
  divide gap first [] xs,
  segment-numbered gap [] first [] xs,
  concat-divide gap first [] xs,
  divide-IsDivided gap first [] xs tt,
)
