-- ===== src/Progress.antt =====
-- backend/app/services/grading_progress.py: the Redis hash of one assignment's grading batch.
-- The hash is a record of its counter fields and, for each essay, of its fields s:, n: and e:, each
-- of which may be missing. A state is `Option Hash`: `none` when the key is not there, or expired.
-- The Lua scripts and pipelines run atomically in Redis, so each is one function. The TTL that each
-- write refreshes is not in the state.
pub mod Counts
pub mod Initial
pub mod Marks
pub mod Runs
pub mod Redelivery
use text.Mathlib.Text.{◌==◌ as str_eq}
use rubric_grading_engine.Prelude.{
  ℕ, String, Bool, true, false, Option, none, some, List, ◌∷◌, map, ◌==◌, if◌then◌else◌, length, [],
}
use rubric_grading_engine.Prelude.Int.{ℤ, pos, negsuc, ◌+ℤ◌}

pub data Status : Type 0 where
  queued grading complete failed : Status

abbrev pub is : Status → Status → Bool
is queued queued = true
is grading grading = true
is complete complete = true
is failed failed = true
is _ _ = false

-- The hash fields of one essay: `s:{id}`, `n:{id}` and `e:{id}`.
pub record Item : Type 0 where
  pub id : ℕ
  pub status : Status
  pub name : Option String
  pub error : Option String

pub record Hash : Type 0 where
  pub total : Option ℕ
  pub complete : Option ℤ
  pub failed : Option ℤ
  pub items : List Item

-- What the marking scripts return.
pub record Counters : Type 0 where
  pub total : ℕ
  pub complete : ℤ
  pub failed : ℤ

abbrev pub zeros : Counters
zeros = record { total = 0; complete = pos 0; failed = pos 0 }

-- HGET s:{id}
unfoldable pub status_of : ℕ → List Item → Option Status
status_of e [] = none
status_of e (x ∷ xs) = let rest = status_of e xs in if x.id == e then some x.status else rest

-- HSET s:{id}
unfoldable pub set_status : ℕ → Status → List Item → List Item
set_status e st [] = record { id = e; status = st; name = none; error = none } ∷ []
set_status e st (x ∷ xs) =
    let rest = set_status e st xs in if x.id == e then record x { status = st } ∷ xs else x ∷ rest

-- HSET e:{id}, of an essay whose field s:{id} is there
unfoldable pub set_error : ℕ → String → List Item → List Item
set_error e code [] = []
set_error e code (x ∷ xs) =
    let rest = set_error e code xs in
    if x.id == e then record x { error = some code } ∷ xs else x ∷ rest

-- HINCRBY
abbrev pub increase : ℤ → Option ℤ → Option ℤ
increase d none = some d
increase d (some n) = some (n +ℤ d)

abbrev pub or_zero : Option ℤ → ℤ
or_zero none = pos 0
or_zero (some n) = n

-- `student_name or ""`
abbrev text_of : Option String → String
text_of none = ""
text_of (some name) = name

-- One turn of the loop of `initialize_progress`: the three fields are set or overwritten.
unfoldable pub enter : ℕ → Option String → List Item → List Item
enter e name [] =
    record { id = e; status = queued; name = some (text_of name); error = some "" } ∷ []
enter e name (x ∷ xs) =
    let rest = enter e name xs in
    if x.id == e
    then record { id = e; status = queued; name = some (text_of name); error = some "" } ∷ xs
    else x ∷ rest

unfoldable pub enter_all : List (ℕ × Option String) → List Item → List Item
enter_all [] items = items
enter_all ((e, name) ∷ essays) items = enter_all essays (enter e name items)

-- Whatever stood under the key is deleted first.
unfoldable pub initialize_progress : List (ℕ × Option String) → Hash
unfolding enter_all enter
initialize_progress essays = record {
  total = some (length essays);
  complete = some (pos 0);
  failed = some (pos 0);
  items = enter_all essays [];
}

-- HSET creates a missing key, without its counters.
unfoldable pub mark_essay_grading : ℕ → Option Hash → Hash
unfolding set_status
mark_essay_grading e none = record {
  total = none;
  complete = none;
  failed = none;
  items = set_status e grading [];
}
mark_essay_grading e (some h) = record h { items = set_status e grading h.items }

-- HMGET total complete failed, with `int(… or 0)`
unfoldable pub counters : ℕ → Hash → Counters
counters t h = record { total = t; complete = or_zero h.complete; failed = or_zero h.failed }

unfoldable pub complete_in : ℕ → Option Status → Hash → Hash
complete_in e none h = record h { items = set_status e complete h.items }
complete_in e (some complete) h = h
complete_in e (some _) h = record h {
  items = set_status e complete h.items;
  complete = increase (pos 1) h.complete;
}

unfoldable pub mark_in : Option ℕ → ℕ → Hash → Option Hash × Counters
unfolding complete_in counters
mark_in none e h = (some h, zeros)
mark_in (some t) e h = let h' = complete_in e (status_of e h.items) h in (some h', counters t h')

unfoldable pub mark_essay_complete : ℕ → Option Hash → Option Hash × Counters
unfolding mark_in
mark_essay_complete e none = (none, zeros)
mark_essay_complete e (some h) = mark_in h.total e h

unfoldable pub fail_in : ℕ → String → Option Status → Hash → Hash
fail_in e code none h = record h { items = set_error e code (set_status e failed h.items) }
fail_in e code (some failed) h = h
fail_in e code (some _) h = record h {
  items = set_error e code (set_status e failed h.items);
  failed = increase (pos 1) h.failed;
}

unfoldable pub mark_failed_in : Option ℕ → ℕ → String → Hash → Option Hash × Counters
unfolding fail_in counters
mark_failed_in none e code h = (some h, zeros)
mark_failed_in (some t) e code h =
    let h' = fail_in e code (status_of e h.items) h in (some h', counters t h')

unfoldable pub mark_essay_failed : ℕ → String → Option Hash → Option Hash × Counters
unfolding mark_failed_in
mark_essay_failed e code none = (none, zeros)
mark_essay_failed e code (some h) = mark_failed_in h.total e code h

unfoldable pub reset_in : ℕ → Option Status → Hash → Hash
reset_in e (some failed) h = record h {
  items = set_error e "" (set_status e queued h.items);
  failed = increase (negsuc 0) h.failed;
}
reset_in e _ h = h

unfoldable pub reset_essay_for_retry : ℕ → Option Hash → Option Hash
unfolding reset_in
reset_essay_for_retry e none = none
reset_essay_for_retry e (some h) = some (reset_in e (status_of e h.items) h)

-- `EssayProgress` and `BatchProgress`: what a read of the hash returns.
pub record EssayProgress : Type 0 where
  pub essay_id : ℕ
  pub status : Status
  pub student_name : Option String
  pub error : Option String

pub record BatchProgress : Type 0 where
  pub total : ℕ
  pub complete : ℤ
  pub failed : ℤ
  pub essays : List EssayProgress

-- `value or None`, of a field that may be missing: the empty text is `None` too.
unfoldable pub or_none : Option String → Option String
or_none none = none
or_none (some text) = if str_eq text "" then none else some text

unfoldable pub read_item : Item → EssayProgress
unfolding or_none
read_item x = record {
  essay_id = x.id;
  status = x.status;
  student_name = or_none x.name;
  error = or_none x.error;
}

abbrev total_of : Option ℕ → ℕ
total_of none = 0
total_of (some t) = t

-- HGETALL answers with no field exactly when the key is not there.
unfoldable pub get_progress : Option Hash → Option BatchProgress
unfolding read_item
get_progress none = none
get_progress (some h) = some (record {
  total = total_of h.total;
  complete = or_zero h.complete;
  failed = or_zero h.failed;
  essays = map read_item h.items;
})
