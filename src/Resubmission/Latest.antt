-- ===== src/Resubmission/Latest.antt =====
-- What a comparison that was just computed is, read back.
use rubric_grading_engine.Prelude.{
  ℕ, ◌<◌, ◌≡◌, refl, sym, ap, ◌∙◌, true, Option, some, List, [], ◌∷◌, arith, ◌==◌, ==_refl, select,
  All, Option-cases, inl, inr,
}
use rubric_grading_engine.Prelude.Results.{ok, >>=-eq-ok, ok-pair_injective}
use rubric_grading_engine.Prelude.Tables.{get, get_where_iff}
use rubric_grading_engine.Models.{Essay, essay_row}
use rubric_grading_engine.Models.Store.{Db, owner_of_essay, is_owner}
use rubric_grading_engine.Resubmission.{
  Words, Assessment, RevisionComparison, Pair, newest_of, build_comparison,
  compute_revision_comparison, get_revision_comparison,
}

abbrev pub IsBefore : ℕ → RevisionComparison → Type 0
IsBefore now c = c.created_at < now

abbrev of_essay : ℕ → List RevisionComparison → List RevisionComparison
of_essay e comparisons = select (λ (x : RevisionComparison). x.essay_id == e) comparisons

newest_of-IsBefore :
    (now : ℕ) (comparisons : List RevisionComparison) (c : RevisionComparison)
    → All (IsBefore now) comparisons
    → newest_of comparisons ≡ some c
    → c.created_at < now
newest_of-IsBefore now [] c h found = ground arith
newest_of-IsBefore now (x ∷ xs) c h found = elim (Option-cases (newest_of xs)) [
  | inl none_ ↦ ground (arith, none_, found, h.0)
  | inr (y, is) ↦
      let earlier = newest_of-IsBefore now xs y h.1 is in ground (arith, is, found, h.0, earlier)
]

All-of_essay :
    (now e : ℕ) (comparisons : List RevisionComparison)
    → All (IsBefore now) comparisons
    → All (IsBefore now) (of_essay e comparisons)
All-of_essay now e [] h = tt
All-of_essay now e (x ∷ xs) h = let rest = All-of_essay now e xs h.1 in ground (arith, rest, h.0)

-- The first of a table is the newest when it is later than the others.
newest_of_first :
    (c : RevisionComparison) (comparisons : List RevisionComparison)
    → All (IsBefore c.created_at) comparisons
    → newest_of (c ∷ comparisons) ≡ some c
newest_of_first c comparisons h = elim (Option-cases (newest_of comparisons)) [
  | inl none_ ↦ rw none_ refl
  | inr (y, is) ↦
      let earlier = newest_of-IsBefore c.created_at comparisons y h is in
      ground (arith, is, earlier)
]

build-fields :
    (words : Words) (answer : Option (List Assessment)) (db : Db) (id now : ℕ) (p : Pair)
    (c : RevisionComparison)
    → build_comparison words answer db id now p ≡ ok c
    → (c.essay_id ≡ p.essay_id) × (c.created_at ≡ now)
unfolding build_comparison
build-fields words answer db id now p c h = ground arith

-- A comparison that is computed of an existing essay, later than all comparisons of the table, is the
-- one that the teacher of the essay's class then gets.
pub compute-get_comparison :
    (words : Words) (answer : Option (List Assessment)) (db : Db)
    (comparisons after : List RevisionComparison) (id now t : ℕ) (p : Pair) (essay : Essay)
    (c : RevisionComparison)
    → compute_revision_comparison words answer db comparisons id now p ≡ ok (c, after)
    → All (IsBefore now) comparisons
    → get p.essay_id db.essays ≡ some essay
    → is_owner (owner_of_essay db essay) t ≡ true
    → get_revision_comparison db after p.essay_id t ≡ ok c
unfolding get_revision_comparison compute_revision_comparison
compute-get_comparison words answer db comparisons after id now t p essay c built past found owned =
    let (row, row_is, end) = >>=-eq-ok (build_comparison words answer db id now p) _ built in
    let (c_is, after_is) = ok-pair_injective row c (row ∷ comparisons) after end in
    let fields = build-fields words answer db id now p c (row_is ∙ ap ok (sym c_is)) in
    let first =
      newest_of_first c (of_essay p.essay_id comparisons)
        (rw fields.1 (All-of_essay now p.essay_id comparisons past)) in
    let stored : after ≡ c ∷ comparisons = after_is ∙ ap (λ r. r ∷ comparisons) (sym c_is) in
    let selected : of_essay p.essay_id after ≡ c ∷ of_essay p.essay_id comparisons =
      rw (stored, fields.0, ==_refl p.essay_id) refl in
    let loaded =
      (get_where_iff p.essay_id (λ (x : Essay). is_owner (owner_of_essay db x) t) db.essays essay).1
        (found, owned) in
    rw (loaded, selected, first) refl
