-- ===== src/Examples/Sessions.antt =====
-- The theorems on composition timelines, for a process of four snapshots, one of which does not parse.
use rubric_grading_engine.Prelude.{
  ℕ, ◌≡◌, refl, ap, map, arith, none, some, List, [], ◌∷◌, ◌==◌, if◌then◌else◌, All,
}
use rubric_grading_engine.Prelude.Int.{pos}
use rubric_grading_engine.Prelude.Results.{value_error, ok, err}
use rubric_grading_engine.Prelude.Texts.{str_eq}
use rubric_grading_engine.Prelude.Orders.{sort_by, insert_by}
use rubric_grading_engine.Timeline.{
  Snapshot, Conversions, CompositionTimeline, Floats, ParsedSnap, defaults, parse_snapshots,
  parse_snapshot, to_utc,
}
use rubric_grading_engine.Timeline.Analysis.{
  segment, make_session, timeline_of, analyze_writing_process,
}
use rubric_grading_engine.Timeline.Sorting.{IsSortedFrom}
use rubric_grading_engine.Timeline.Sessions.{Group, concat, numbered, IsDivided, segment_groups}
use rubric_grading_engine.Timeline.Elapsed.{sum_ℕ, IsOnSeconds, SumsWhole, analyze_sum}
use rubric_grading_engine.Timeline.Pastes.{IsPaste, final_count, analyze-IsPaste}

-- A value is a number: a word count, and a number of minutes as an instant; 99 is no datetime.
abbrev conversions : Conversions ℕ
conversions = record {
  int = λ n. ok (pos n);
  str = λ n. if n == 99 then "" else if n == 0 then "0" else if n == 10 then "10" else "50";
  fromisoformat = λ s.
      if str_eq s ""
      then err value_error
      else ok (record {
        wall = if str_eq s "0" then 0 else if str_eq s "10" then 600000000 else 3000000000;
        offset = none;
      });
}

abbrev snapshot : ℕ → ℕ → ℕ → Snapshot ℕ
snapshot seq ts words = record { seq = some seq; ts = some ts; word_count = some words }

abbrev raw : List (Snapshot ℕ)
raw = snapshot 1 0 10 ∷ snapshot 3 50 200 ∷ snapshot 2 10 90 ∷ snapshot 4 99 300 ∷ []

abbrev snap : ℕ → ℕ → ℕ → ParsedSnap
snap seq ts words = record { seq = pos seq; ts = ts; word_count = words }

abbrev snaps : List ParsedSnap
snaps = snap 1 0 10 ∷ snap 2 600000000 90 ∷ snap 3 3000000000 200 ∷ []

-- Durations as floats that never round.
abbrev floats : Floats ℕ
floats = record { total_seconds = λ d. d; sum = sum_ℕ }

abbrev timeline : CompositionTimeline ℕ
timeline = timeline_of floats defaults snaps

map_id : (ds : List ℕ) → map (λ (d : ℕ). d) ds ≡ ds
map_id [] = refl
map_id (d ∷ ds) = ap (λ es. d ∷ es) (map_id ds)

floats-SumsWhole : SumsWhole floats
floats-SumsWhole ds whole small = ap sum_ℕ (map_id ds)

analysis : analyze_writing_process conversions floats defaults raw ≡ ok timeline
unfolding analyze_writing_process parse_snapshots parse_snapshot to_utc sort_by insert_by
analysis = refl

segment_groups_example :
    let first = snap 1 0 10 in
    let others = snap 2 600000000 90 ∷ snap 3 3000000000 200 ∷ [] in
    (groups : List Group) × (segment 1800000000 [] first [] others ≡ numbered 0 groups)
    × (concat groups ≡ first ∷ others)
    × IsDivided 1800000000 groups
segment_groups_example =
    segment_groups 1800000000 (snap 1 0 10) (snap 2 600000000 90 ∷ snap 3 3000000000 200 ∷ [])

timeline-IsOnSeconds : All IsOnSeconds timeline.sessions
unfolding timeline_of segment make_session
timeline-IsOnSeconds =
    (((0, refl), (600, refl), omega arith), (((3000, refl), (3000, refl), omega arith), tt))

analyze_sum_example :
    sum_ℕ (timeline.active_writing_seconds ∷ timeline.inter_session_gaps_seconds)
    ≡ timeline.total_elapsed_seconds
analyze_sum_example =
    analyze_sum conversions floats defaults raw timeline floats-SumsWhole analysis
      timeline-IsOnSeconds

analyze-IsPaste_example :
    (snaps' : List ParsedSnap) × (timeline ≡ timeline_of floats defaults snaps')
    × IsSortedFrom 0 snaps'
    × All (IsPaste defaults (final_count snaps') timeline.sessions) timeline.paste_events
analyze-IsPaste_example = analyze-IsPaste conversions floats defaults raw timeline analysis
