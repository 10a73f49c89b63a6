-- ===== src/Timeline/Analysis.antt =====
-- analyze_writing_process and its helpers, on the parsed snapshots and on the raw ones.
use rubric_grading_engine.Prelude.{
  ℕ, ◌*◌, Bool, true, false, ◌&&◌, List, [], ◌∷◌, ◌++◌, map, ltb, leb, if◌then◌else◌, length,
  select,
}
use rubric_grading_engine.Prelude.Int.{sub_ℕ, ℤ, pos, negsuc, pos_part, leb_ℤ}
use rubric_grading_engine.Prelude.Results.{Result, ok, ◌>>=◌}
use rubric_grading_engine.Timeline.{
  Snapshot, Conversions, ParsedSnap, SessionSegment, PasteEvent, RapidCompletionEvent,
  CompositionTimeline, Floats, Thresholds, parse_snapshots,
}

-- A session's snapshots, which are not empty: the first and the others.
abbrev pub last_of : ParsedSnap → List ParsedSnap → ParsedSnap
last_of first [] = first
last_of first (x ∷ xs) = last_of x xs

-- `max(0.0, (b - a).total_seconds())`
abbrev pub elapsed : ℕ → ℕ → ℕ
elapsed a b = pos_part (sub_ℕ b a)

unfoldable pub make_session : ParsedSnap → List ParsedSnap → ℕ → SessionSegment
make_session first rest session_index =
    let last = last_of first rest in
    record {
      session_index = session_index;
      started_at = first.ts;
      ended_at = last.ts;
      duration = elapsed first.ts last.ts;
      snapshot_count = length (first ∷ rest);
      word_count_start = first.word_count;
      word_count_end = last.word_count;
      words_added = sub_ℕ last.word_count first.word_count;
    }

-- The loop over the snapshots after the first: the sessions made, the current one, those to come. The
-- snapshot before `snap` is the current session's last.
unfoldable pub segment :
    ℕ → List SessionSegment → ParsedSnap → List ParsedSnap → List ParsedSnap → List SessionSegment
segment gap sessions first current [] =
    sessions ++ (make_session first current (length sessions) ∷ [])
segment gap sessions first current (snap ∷ snaps) =
    let finished = sessions ++ (make_session first current (length sessions) ∷ []) in
    let apart = segment gap finished snap [] snaps in
    let joined = segment gap sessions first (current ++ (snap ∷ [])) snaps in
    if leb_ℤ (pos gap) (sub_ℕ snap.ts (last_of first current).ts) then apart else joined

abbrev pub gaps_between : List SessionSegment → List ℕ
gaps_between [] = []
gaps_between (x ∷ []) = []
gaps_between (x ∷ y ∷ sessions) = elapsed x.ended_at y.started_at ∷ gaps_between (y ∷ sessions)

abbrev pub sum_durations : {Float : Type 0} → Floats Float → List SessionSegment → Float
sum_durations py sessions =
    py.sum (map (λ (x : SessionSegment). py.total_seconds x.duration) sessions)

-- The end of the last session, given the end of the one before it.
abbrev pub last_end : ℕ → List SessionSegment → ℕ
last_end t [] = t
last_end t (x ∷ sessions) = last_end x.ended_at sessions

-- `max(0.0, (sessions[-1].ended_at - sessions[0].started_at).total_seconds())`
abbrev pub total_elapsed_of : List SessionSegment → ℕ
total_elapsed_of [] = 0
total_elapsed_of (x ∷ sessions) = elapsed x.started_at (last_end x.ended_at sessions)

-- The first session whose span contains the instant; 0 if none does.
unfoldable pub find_session_index : List SessionSegment → ℕ → ℕ
find_session_index [] ts = 0
find_session_index (x ∷ sessions) ts =
    let rest = find_session_index sessions ts in
    if leb x.started_at ts && leb ts x.ended_at then x.session_index else rest

-- `words / final_word_count >= fraction / 100`, for a positive final word count.
abbrev pub reaches : ℤ → ℕ → ℕ → Bool
reaches (pos words) final fraction = leb (fraction * final) (100 * words)
reaches (negsuc _) final fraction = false

unfoldable pub is_paste : Thresholds → ℕ → ParsedSnap → ParsedSnap → Bool
is_paste limits final before after =
    let delta = sub_ℕ after.word_count before.word_count in
    leb_ℤ (pos limits.paste_min_words) delta && reaches delta final limits.paste_min_fraction

unfoldable pub paste_event : List SessionSegment → ParsedSnap → ParsedSnap → PasteEvent
paste_event sessions before after = record {
  snapshot_seq = after.seq;
  occurred_at = after.ts;
  words_before = before.word_count;
  words_after = after.word_count;
  words_added = sub_ℕ after.word_count before.word_count;
  session_index = find_session_index sessions after.ts;
}

-- The loop over the snapshots after `before`.
abbrev pub paste_events_of :
    Thresholds → ℕ → List SessionSegment → ParsedSnap → List ParsedSnap → List PasteEvent
paste_events_of limits final sessions before [] = []
paste_events_of limits final sessions before (snap ∷ snaps) =
    let rest = paste_events_of limits final sessions snap snaps in
    if is_paste limits final before snap then paste_event sessions before snap ∷ rest else rest

unfoldable pub is_rapid : Thresholds → ℕ → SessionSegment → Bool
is_rapid limits final session =
    leb session.duration limits.rapid_completion_max
    && (ltb 0 final && reaches session.words_added final limits.rapid_completion_fraction)

abbrev pub rapid_event : ℕ → SessionSegment → RapidCompletionEvent
rapid_event final session = record {
  session_index = session.session_index;
  duration = session.duration;
  words_at_start = session.word_count_start;
  words_at_end = session.word_count_end;
  completion_fraction = (session.words_added, final);
}

abbrev pub no_process_data : {Float : Type 0} → Floats Float → CompositionTimeline Float
no_process_data py = record {
  has_process_data = false;
  session_count = 0;
  sessions = [];
  inter_session_gaps_seconds = [];
  active_writing_seconds = py.total_seconds 0;
  total_elapsed_seconds = py.total_seconds 0;
  paste_events = [];
  rapid_completion_events = [];
}

unfoldable pub timeline_of :
    {Float : Type 0} → Floats Float → Thresholds → List ParsedSnap → CompositionTimeline Float
timeline_of py limits [] = no_process_data py
timeline_of py limits (first ∷ snaps) =
    let final = (last_of first snaps).word_count in
    let sessions = segment limits.session_gap [] first [] snaps in
    record {
      has_process_data = true;
      session_count = length sessions;
      sessions = sessions;
      inter_session_gaps_seconds = map py.total_seconds (gaps_between sessions);
      active_writing_seconds = sum_durations py sessions;
      total_elapsed_seconds = py.total_seconds (total_elapsed_of sessions);
      paste_events = if ltb 0 final then paste_events_of limits final sessions first snaps else [];
      rapid_completion_events = map (rapid_event final) (select (is_rapid limits final) sessions);
    }

unfoldable pub analyze_writing_process :
    {Value Float : Type 0}
    → Conversions Value
    → Floats Float
    → Thresholds
    → List (Snapshot Value)
    → Result (CompositionTimeline Float)
analyze_writing_process c py limits snapshots = do
  parsed ← parse_snapshots c snapshots
  ok (timeline_of py limits parsed)
