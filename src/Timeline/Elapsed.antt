-- ===== src/Timeline/Elapsed.antt =====
-- Times of the sessions: order, and what the durations and the gaps add up to.
use rubric_grading_engine.Prelude.{
  ℕ, suc, ◌+◌, ◌-◌, ◌*◌, ◌≤◌, map, All, ap, ◌∙◌, ◌≡◌, refl, inl, inr, List, [], ◌∷◌, ◌++◌, arith,
}
use mathlib.Core.Path.{subst}
use rubric_grading_engine.Prelude.Results.{ok, Result-cases}
use rubric_grading_engine.Prelude.Orders.{sort_by}
use rubric_grading_engine.Timeline.{
  Snapshot, Conversions, ParsedSnap, SessionSegment, CompositionTimeline, Floats, end_of_time,
  Thresholds, is_earlier, parse_each, parse_snapshots,
}
use rubric_grading_engine.Timeline.Analysis.{
  elapsed, last_of, make_session, segment, gaps_between, sum_durations, last_end, total_elapsed_of,
  timeline_of, analyze_writing_process,
}
use rubric_grading_engine.Timeline.Sorting.{IsSortedFrom, sort-IsSortedFrom}
use rubric_grading_engine.Timeline.Sessions.{Group, concat, numbered, segment_groups}

-- Sessions in order of time, from the given instant on, with the durations of their spans.
abbrev pub AreOrdered : ℕ → List SessionSegment → Type 0
AreOrdered t [] = Unit
AreOrdered t (x ∷ xs) =
    (t ≤ x.started_at) × (x.started_at + x.duration ≡ x.ended_at) × AreOrdered x.ended_at xs

pub last-IsSortedFrom :
    (first : ParsedSnap) (current xs : List ParsedSnap)
    → IsSortedFrom first.ts (current ++ xs)
    → (first.ts ≤ (last_of first current).ts) × IsSortedFrom (last_of first current).ts xs
unfolding IsSortedFrom
last-IsSortedFrom first [] xs h = (omega arith, h)
last-IsSortedFrom first (x ∷ current) xs h =
    let (le, sorted) = last-IsSortedFrom x current xs h.1 in (omega (arith, le, h.0), sorted)

pub numbered-AreOrdered :
    (i t : ℕ) (groups : List Group)
    → IsSortedFrom t (concat groups)
    → AreOrdered t (numbered i groups)
unfolding IsSortedFrom make_session
numbered-AreOrdered i t [] h = tt
numbered-AreOrdered i t ((first, others) ∷ groups) h =
    let (le, sorted) = last-IsSortedFrom first others (concat groups) h.1 in
    (h.0, ground arith, numbered-AreOrdered (suc i) (last_of first others).ts groups sorted)

abbrev pub sum_ℕ : List ℕ → ℕ
sum_ℕ [] = 0
sum_ℕ (x ∷ xs) = x + sum_ℕ xs

abbrev durations : List SessionSegment → List ℕ
durations sessions = map (λ (x : SessionSegment). x.duration) sessions

sum-durations-gaps :
    (t : ℕ) (x : SessionSegment) (xs : List SessionSegment)
    → AreOrdered t (x ∷ xs)
    → x.started_at + sum_ℕ (durations (x ∷ xs)) + sum_ℕ (gaps_between (x ∷ xs))
      ≡ last_end x.ended_at xs
sum-durations-gaps t x [] h = omega (arith, h.1)
sum-durations-gaps t x (y ∷ ys) h =
    let rest = sum-durations-gaps x.ended_at y ys h.2 in
    let (first, spans, (next, more, others)) = h in ground arith

sessions_sum :
    (t : ℕ) (sessions : List SessionSegment)
    → AreOrdered t sessions
    → sum_ℕ (durations sessions) + sum_ℕ (gaps_between sessions) ≡ total_elapsed_of sessions
sessions_sum t [] h = refl
sessions_sum t (x ∷ xs) h = let sum = sum-durations-gaps t x xs h in ground arith

-- A whole number of seconds.
abbrev pub IsWhole : ℕ → Type 0
IsWhole d = (k : ℕ) × (d ≡ 1000000 * k)

-- A session that starts and ends on whole seconds that a datetime can represent.
abbrev pub IsOnSeconds : SessionSegment → Type 0
IsOnSeconds x = IsWhole x.started_at × IsWhole x.ended_at × (x.ended_at ≤ end_of_time)

-- Floats represent the whole numbers up to 2 ^ 53, so sums of whole seconds up to there are exact.
abbrev pub SumsWhole : {Float : Type 0} → Floats Float → Type 0
SumsWhole py =
    (ds : List ℕ)
    → All IsWhole ds
    → sum_ℕ ds ≤ 1000000 * 9007199254740992
    → py.sum (map py.total_seconds ds) ≡ py.total_seconds (sum_ℕ ds)

IsWhole-between : (a b d : ℕ) → IsWhole a → IsWhole b → a + d ≡ b → IsWhole d
IsWhole-between a b d (j, at) (k, to) h = (k - j, omega (arith, at, to, h))

durations-IsWhole :
    (t : ℕ) (xs : List SessionSegment)
    → AreOrdered t xs
    → All IsOnSeconds xs
    → All IsWhole (durations xs)
durations-IsWhole t [] h w = tt
durations-IsWhole t (x ∷ xs) h w = (
  IsWhole-between x.started_at x.ended_at x.duration w.0.0 w.0.1 h.1,
  durations-IsWhole x.ended_at xs h.2 w.1,
)

gaps-IsWhole :
    (t : ℕ) (xs : List SessionSegment)
    → AreOrdered t xs
    → All IsOnSeconds xs
    → All IsWhole (gaps_between xs)
gaps-IsWhole t [] h w = tt
gaps-IsWhole t (x ∷ []) h w = tt
gaps-IsWhole t (x ∷ y ∷ ys) h w =
    let (first, spans, (next, more, others)) = h in
    (
      IsWhole-between x.ended_at y.started_at (elapsed x.ended_at y.started_at) w.0.1 w.1.0.0
          (ground arith),
      gaps-IsWhole x.ended_at (y ∷ ys) h.2 w.1,
    )

end_bound :
    (t : ℕ) (xs : List SessionSegment)
    → t ≤ end_of_time
    → All IsOnSeconds xs
    → last_end t xs ≤ end_of_time
end_bound t [] le w = le
end_bound t (x ∷ xs) le w = end_bound x.ended_at xs w.0.2 w.1

total_bound : (xs : List SessionSegment) → All IsOnSeconds xs → total_elapsed_of xs ≤ end_of_time
total_bound [] w = omega arith
total_bound (x ∷ xs) w = let end_ = end_bound x.ended_at xs w.0.2 w.1 in ground arith

pub segment-AreOrdered :
    (gap : ℕ) (first : ParsedSnap) (xs : List ParsedSnap)
    → IsSortedFrom 0 (first ∷ xs)
    → AreOrdered 0 (segment gap [] first [] xs)
segment-AreOrdered gap first xs h =
    let (groups, sessions, all, divided) = segment_groups gap first xs in
    rw sessions (numbered-AreOrdered 0 0 groups (rw all h))

-- What the analysis returned is the timeline of snapshots in order of time.
pub analyze-IsSortedFrom :
    {Value Float : Type 0} (c : Conversions Value) (py : Floats Float) (limits : Thresholds)
    (raw : List (Snapshot Value)) (timeline : CompositionTimeline Float)
    → analyze_writing_process c py limits raw ≡ ok timeline
    → (snaps : List ParsedSnap) × IsSortedFrom 0 snaps × (timeline ≡ timeline_of py limits snaps)
unfolding analyze_writing_process parse_snapshots
analyze-IsSortedFrom c py limits raw timeline h = elim (Result-cases (parse_each c raw)) [
  | inl (snaps, eq) ↦ (sort_by is_earlier snaps, sort-IsSortedFrom snaps, ground (arith, h, eq))
  | inr (raised, eq) ↦ ground (arith, h, eq)
]

sum-IsWhole : (ds : List ℕ) → All IsWhole ds → IsWhole (sum_ℕ ds)
sum-IsWhole [] w = (0, refl)
sum-IsWhole (d ∷ ds) ((k, is), w) =
    let (j, rest) = sum-IsWhole ds w in (k + j, omega (arith, is, rest))

map-durations :
    {Float : Type 0} (py : Floats Float) (xs : List SessionSegment)
    → map (λ (x : SessionSegment). py.total_seconds x.duration) xs
      ≡ map py.total_seconds (durations xs)
map-durations py [] = refl
map-durations py (x ∷ xs) = ap (λ fs. py.total_seconds x.duration ∷ fs) (map-durations py xs)

-- The float sum of the active time and the gaps, for sessions in order on whole seconds.
sessions_float_sum :
    {Float : Type 0} (py : Floats Float) (xs : List SessionSegment)
    → SumsWhole py
    → AreOrdered 0 xs
    → All IsOnSeconds xs
    → py.sum (sum_durations py xs ∷ map py.total_seconds (gaps_between xs))
      ≡ py.total_seconds (total_elapsed_of xs)
sessions_float_sum py xs exact h w =
    let total = sessions_sum 0 xs h in
    let bound = total_bound xs w in
    let ds = durations-IsWhole 0 xs h w in
    let active = exact (durations xs) ds (omega (arith, total, bound)) in
    let all_ =
      exact (sum_ℕ (durations xs) ∷ gaps_between xs)
        (sum-IsWhole (durations xs) ds, gaps-IsWhole 0 xs h w) (omega (arith, total, bound)) in
    ap (λ a. py.sum (a ∷ map py.total_seconds (gaps_between xs)))
      (ap py.sum (map-durations py xs) ∙ active)
    ∙ all_
    ∙ ap py.total_seconds total

timeline_sum :
    {Float : Type 0} (py : Floats Float) (limits : Thresholds) (snaps : List ParsedSnap)
    → SumsWhole py
    → IsSortedFrom 0 snaps
    → let t = timeline_of py limits snaps in
      All IsOnSeconds t.sessions
      → py.sum (t.active_writing_seconds ∷ t.inter_session_gaps_seconds) ≡ t.total_elapsed_seconds
unfolding timeline_of
timeline_sum py limits [] exact h w = exact (0 ∷ []) ((0, refl), tt) (omega arith)
timeline_sum py limits (first ∷ xs) exact h w =
    sessions_float_sum py (segment limits.session_gap [] first [] xs) exact
      (segment-AreOrdered limits.session_gap first xs h) w

-- With floats that add whole seconds up to 2 ^ 53 exactly: when every session that the analysis returns
-- starts and ends on a whole second that a datetime can represent, the active time and the gaps between
-- the sessions sum to the total elapsed time.
pub analyze_sum :
    {Value Float : Type 0} (c : Conversions Value) (py : Floats Float) (limits : Thresholds)
    (raw : List (Snapshot Value)) (timeline : CompositionTimeline Float)
    → SumsWhole py
    → analyze_writing_process c py limits raw ≡ ok timeline
    → All IsOnSeconds timeline.sessions
    → py.sum (timeline.active_writing_seconds ∷ timeline.inter_session_gaps_seconds)
      ≡ timeline.total_elapsed_seconds
analyze_sum c py limits raw timeline exact h w =
    let (snaps, sorted, eq) = analyze-IsSortedFrom c py limits raw timeline h in
    rw eq (
      timeline_sum py limits snaps exact sorted
        (subst (λ (t : CompositionTimeline _). All IsOnSeconds t.sessions) eq w))
