-- ===== src/Timeline.antt =====
-- The composition timeline: backend/app/services/composition_timeline.py. Instants and durations are
-- in microseconds (an instant counts from the first of datetime), fractions in hundredths, and the
-- completion fraction of an event stays a numerator over the final word count. Where the source reads a
-- number of seconds off a duration, to compare it or to keep it in a session, the duration stands for
-- that float; the floats that it adds, and those it keeps beside them, are of Python's own type.
pub mod Analysis
pub mod Sorting
pub mod Sessions
pub mod Elapsed
pub mod Pastes
use rubric_grading_engine.Prelude.{
  ℕ, String, Bool, Option, none, some, List, [], ◌∷◌, ltb, if◌then◌else◌,
}
use rubric_grading_engine.Prelude.Int.{ℤ, pos, negsuc, pos_part, ◌-ℤ◌}
use rubric_grading_engine.Prelude.Results.{
  overflow_error, value_error, Result, ok, err, ◌>>=◌, ◌>>◌, or_raise,
}
use rubric_grading_engine.Prelude.Orders.{sort_by}

-- A raw snapshot's values, each of which may be missing.
pub record Snapshot (Value : Type 0) : Type 0 where
  pub seq : Option Value
  pub ts : Option Value
  pub word_count : Option Value

-- A parsed datetime: its wall clock, and the offset from UTC when it has one.
pub record Datetime : Type 0 where
  pub wall : ℕ
  pub offset : Option ℤ

-- Python's conversions. Each returns or raises; an error that the parser catches is a value error.
pub record Conversions (Value : Type 0) : Type 0 where
  pub int : Value → Result ℤ
  pub str : Value → String
  pub fromisoformat : String → Result Datetime

-- Python's floats: `total_seconds()` of a duration, and `sum`, which rounds as Python does.
pub record Floats (Float : Type 0) : Type 0 where
  pub total_seconds : ℕ → Float
  pub sum : List Float → Float

-- (seq, ts, word_count)
pub record ParsedSnap : Type 0 where
  pub seq : ℤ
  pub ts : ℕ
  pub word_count : ℕ

pub record SessionSegment : Type 0 where
  pub session_index : ℕ
  pub started_at : ℕ
  pub ended_at : ℕ
  pub duration : ℕ
  pub snapshot_count : ℕ
  pub word_count_start : ℕ
  pub word_count_end : ℕ
  pub words_added : ℤ

pub record PasteEvent : Type 0 where
  pub snapshot_seq : ℤ
  pub occurred_at : ℕ
  pub words_before : ℕ
  pub words_after : ℕ
  pub words_added : ℤ
  pub session_index : ℕ

-- The completion fraction is `words_added / final_word_count`.
pub record RapidCompletionEvent : Type 0 where
  pub session_index : ℕ
  pub duration : ℕ
  pub words_at_start : ℕ
  pub words_at_end : ℕ
  pub completion_fraction : ℤ × ℕ

pub record CompositionTimeline (Float : Type 0) : Type 0 where
  pub has_process_data : Bool
  pub session_count : ℕ
  pub sessions : List SessionSegment
  pub inter_session_gaps_seconds : List Float
  pub active_writing_seconds : Float
  pub total_elapsed_seconds : Float
  pub paste_events : List PasteEvent
  pub rapid_completion_events : List RapidCompletionEvent

pub record Thresholds : Type 0 where
  pub session_gap : ℕ
  pub paste_min_words : ℕ
  pub paste_min_fraction : ℕ
  pub rapid_completion_fraction : ℕ
  pub rapid_completion_max : ℕ

abbrev pub defaults : Thresholds
defaults = record {
  session_gap = 1800000000;
  paste_min_words = 50;
  paste_min_fraction = 15;
  rapid_completion_fraction = 75;
  rapid_completion_max = 1200000000;
}

-- The number of microseconds that datetime can represent, from year 1 to year 9999.
abbrev pub end_of_time : ℕ
end_of_time = 315537897600000000

-- `ts.replace(tzinfo=UTC)` or `ts.astimezone(UTC)`; the latter overflows outside datetime's range.
unfoldable pub to_utc : Datetime → Result ℕ
to_utc t = elim t.offset [
  | none ↦ ok t.wall
  | some offset ↦ elim (pos t.wall -ℤ offset) [
    | pos instant ↦ if ltb instant end_of_time then ok instant else err overflow_error
    | negsuc _ ↦ err overflow_error
  ]
]

-- The body of the loop's `try`.
unfoldable pub parse_snapshot :
    {Value : Type 0} → Conversions Value → Snapshot Value → Result ParsedSnap
parse_snapshot c snap = do
  seq_raw ← or_raise snap.seq value_error
  seq ← c.int seq_raw
  ts_raw ← or_raise snap.ts value_error
  stamp ← c.fromisoformat (c.str ts_raw)
  ts ← to_utc stamp
  count_raw ← or_raise snap.word_count value_error
  count ← c.int count_raw
  ok (record { seq = seq; ts = ts; word_count = pos_part count })

-- except (KeyError, ValueError, TypeError): continue
abbrev pub keep : Result ParsedSnap → Result (List ParsedSnap) → Result (List ParsedSnap)
keep (ok snap) rest = rest >>= λ snaps. ok (snap ∷ snaps)
keep (err value_error) rest = rest
keep (err raised) rest = err raised

abbrev pub parse_each :
    {Value : Type 0} → Conversions Value → List (Snapshot Value) → Result (List ParsedSnap)
parse_each c [] = ok []
parse_each c (snap ∷ snaps) = keep (parse_snapshot c snap) (parse_each c snaps)

abbrev pub is_earlier : ParsedSnap → ParsedSnap → Bool
is_earlier x y = ltb x.ts y.ts

unfoldable pub parse_snapshots :
    {Value : Type 0} → Conversions Value → List (Snapshot Value) → Result (List ParsedSnap)
parse_snapshots c raw = do parsed ← parse_each c raw; ok (sort_by is_earlier parsed)
