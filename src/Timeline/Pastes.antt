-- ===== src/Timeline/Pastes.antt =====
-- Paste events: each lies within the session that it names.
use rubric_grading_engine.Prelude.{
  All_map, All-append, ℕ, suc, ◌+◌, ◌-◌, ◌*◌, ◌≤◌, ◌≡◌, refl, ◌⊎◌, inl, inr, Bool, true, ◌&&◌, List,
  [], ◌∷◌, ◌++◌, arith, ltb, leb, Bool-cases, All,
}
use rubric_grading_engine.Prelude.Results.{ok}
use rubric_grading_engine.Timeline.{
  Snapshot, Conversions, ParsedSnap, SessionSegment, PasteEvent, CompositionTimeline, Floats,
  Thresholds,
}
use rubric_grading_engine.Timeline.Analysis.{
  last_of, make_session, segment, find_session_index, is_paste, paste_event, paste_events_of,
  timeline_of, analyze_writing_process,
}
use rubric_grading_engine.Timeline.Sorting.{IsSortedFrom}
use rubric_grading_engine.Timeline.Sessions.{Group, concat, numbered, segment_groups}
use rubric_grading_engine.Timeline.Elapsed.{last-IsSortedFrom, analyze-IsSortedFrom}

abbrev pub spans : SessionSegment → ℕ → Bool
spans x ts = leb x.started_at ts && leb ts x.ended_at

-- Some session spans the instant.
abbrev IsCovered : List SessionSegment → ℕ → Type 0
IsCovered [] ts = ⊥
IsCovered (x ∷ xs) ts = (spans x ts ≡ true) ⊎ IsCovered xs ts

-- A session with the index spans the instant.
abbrev pub IsWithin : List SessionSegment → ℕ → ℕ → Type 0
IsWithin [] index ts = ⊥
IsWithin (x ∷ xs) index ts =
    ((x.session_index ≡ index) × (spans x ts ≡ true)) ⊎ IsWithin xs index ts

find-IsWithin :
    (sessions : List SessionSegment) (ts : ℕ)
    → IsCovered sessions ts
    → IsWithin sessions (find_session_index sessions ts) ts
unfolding find_session_index
find-IsWithin [] ts h = absurd h
find-IsWithin (x ∷ xs) ts h = elim (Bool-cases (spans x ts)) [
  | inl inside ↦ inl (rw inside refl, inside)
  | inr outside ↦ elim h [
    | inl inside ↦ absurd (ground (arith, outside, inside))
    | inr later ↦ rw outside (inr (find-IsWithin xs ts later))
  ]
]

-- Every snapshot of a list has an instant that a session spans.
abbrev AreCovered : List SessionSegment → List ParsedSnap → Type 0
AreCovered sessions snaps = All (λ x. IsCovered sessions x.ts) snaps

all_between :
    (t : ℕ) (first : ParsedSnap) (others rest : List ParsedSnap)
    → t ≤ first.ts
    → IsSortedFrom first.ts (others ++ rest)
    → All (λ x. (t ≤ x.ts) × (x.ts ≤ (last_of first others).ts)) (first ∷ others)
unfolding IsSortedFrom
all_between t first [] rest le h = ((le, omega arith), tt)
all_between t first (y ∷ ys) rest le h =
    let later = all_between t y ys rest (omega (arith, le, h.0)) h.1 in
    let (next, last) = later.0 in ((le, omega (arith, last, h.0)), later)

group_AreCovered :
    (i : ℕ) (first : ParsedSnap) (others rest : List ParsedSnap) (later : List SessionSegment)
    → IsSortedFrom first.ts (others ++ rest)
    → AreCovered (make_session first others i ∷ later) (first ∷ others)
unfolding make_session
group_AreCovered i first others rest later h =
    All_map (first ∷ others) (λ x between. inl (ground (arith, between)))
      (all_between first.ts first others rest (omega arith) h)

numbered-AreCovered :
    (i t : ℕ) (groups : List Group)
    → IsSortedFrom t (concat groups)
    → AreCovered (numbered i groups) (concat groups)
unfolding IsSortedFrom
numbered-AreCovered i t [] h = tt
numbered-AreCovered i t ((first, others) ∷ groups) h =
    let later = numbered (suc i) groups in
    let (le, sorted) = last-IsSortedFrom first others (concat groups) h.1 in
    let rest = numbered-AreCovered (suc i) (last_of first others).ts groups sorted in
    All-append _ (first ∷ others) (concat groups)
      (group_AreCovered i first others (concat groups) later h.1)
      (All_map (concat groups) (λ x covered. inr covered) rest)

groups-AreCovered :
    (groups : List Group) (sessions : List SessionSegment) (snaps : List ParsedSnap)
    → sessions ≡ numbered 0 groups
    → concat groups ≡ snaps
    → IsSortedFrom 0 snaps
    → AreCovered sessions snaps
groups-AreCovered groups sessions snaps made all h =
    rw (made, ← all) (numbered-AreCovered 0 0 groups (rw all h))

-- What a paste event says, given the sessions and the final word count.
abbrev pub IsPaste : Thresholds → ℕ → List SessionSegment → PasteEvent → Type 0
IsPaste limits final sessions e =
    IsWithin sessions e.session_index e.occurred_at
    × (e.words_before + limits.paste_min_words ≤ e.words_after)
    × (limits.paste_min_fraction * final ≤ 100 * (e.words_after - e.words_before))

paste_event-IsPaste :
    (limits : Thresholds) (final : ℕ) (sessions : List SessionSegment) (before after : ParsedSnap)
    → IsCovered sessions after.ts
    → is_paste limits final before after ≡ true
    → IsPaste limits final sessions (paste_event sessions before after)
unfolding is_paste paste_event
paste_event-IsPaste limits final sessions before after covered h =
    (find-IsWithin sessions after.ts covered, ground arith, ground arith)

pastes-IsPaste :
    (limits : Thresholds) (final : ℕ) (sessions : List SessionSegment) (before : ParsedSnap)
    (snaps : List ParsedSnap)
    → AreCovered sessions snaps
    → All (IsPaste limits final sessions) (paste_events_of limits final sessions before snaps)
pastes-IsPaste limits final sessions before [] h = tt
pastes-IsPaste limits final sessions before (x ∷ xs) h =
    let rest = pastes-IsPaste limits final sessions x xs h.1 in
    elim (Bool-cases (is_paste limits final before x)) [
      | inl paste ↦ rw paste (paste_event-IsPaste limits final sessions before x h.0 paste, rest)
      | inr other ↦ rw other rest
    ]

-- The final word count of the snapshots.
abbrev pub final_count : List ParsedSnap → ℕ
final_count [] = 0
final_count (first ∷ snaps) = (last_of first snaps).word_count

timeline-IsPaste :
    {Float : Type 0} (py : Floats Float) (limits : Thresholds) (snaps : List ParsedSnap)
    → IsSortedFrom 0 snaps
    → let t = timeline_of py limits snaps in
      All (IsPaste limits (final_count snaps) t.sessions) t.paste_events
unfolding timeline_of
timeline-IsPaste py limits [] h = tt
timeline-IsPaste py limits (first ∷ xs) h =
    let final = (last_of first xs).word_count in
    let sessions = segment limits.session_gap [] first [] xs in
    let (groups, made, all, divided) = segment_groups limits.session_gap first xs in
    let covered : AreCovered sessions (first ∷ xs) =
      groups-AreCovered groups sessions (first ∷ xs) made all h in
    elim (Bool-cases (ltb 0 final)) [
      | inl words ↦ rw words (pastes-IsPaste limits final sessions first xs covered.1)
      | inr none_ ↦ rw none_ tt
    ]

-- In every timeline that the analysis returns, each paste event lies within the session whose index it
-- names, adds at least the minimum number of words, and at least the minimum fraction of the word count
-- of the latest snapshot.
pub analyze-IsPaste :
    {Value Float : Type 0} (c : Conversions Value) (py : Floats Float) (limits : Thresholds)
    (raw : List (Snapshot Value)) (timeline : CompositionTimeline Float)
    → analyze_writing_process c py limits raw ≡ ok timeline
    → (snaps : List ParsedSnap) × (timeline ≡ timeline_of py limits snaps)
      × IsSortedFrom 0 snaps
      × All (IsPaste limits (final_count snaps) timeline.sessions) timeline.paste_events
analyze-IsPaste c py limits raw timeline h =
    let (snaps, sorted, eq) = analyze-IsSortedFrom c py limits raw timeline h in
    (snaps, eq, sorted, rw eq (timeline-IsPaste py limits snaps sorted))
