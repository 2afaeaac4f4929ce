-- ===== src/Web/LogStream/View.antt =====
-- apps/web/src/hooks/useContainerLogs.ts: the state of the hook and what changes it. The setters of
-- one event are one step, with the effect on `pausedRef` that follows a click.
use docksight.Base.{
  ℕ, String, Bool, true, false, Option, none, some, List, [], ◌∷◌, ◌++◌, length, take_last, eqb,
  if◌then◌else◌,
}

pub data LogStreamStatus : Type 0 where
  connecting live paused error : LogStreamStatus

abbrev pub max_entries : ℕ
max_entries = 5000

-- `held` is `paused` of the source, `held_ref` is `pausedRef` and `buffer` is `bufferRef`; an entry is
-- of any type, since the hook does not look into it.
pub record LogView {ℓ} (A : Type ℓ) : Type ℓ where
  pub entries : List A
  pub status : LogStreamStatus
  pub message : Option String
  pub held : Bool
  pub held_ref : Bool
  pub buffer : List A
  pub buffered_count : ℕ

-- What happens to the hook: the effect starts over, `fetch` fails or is refused with a status, the
-- stream opens, a chunk arrives, the stream ends, and the user pauses or resumes, or clears.
pub data LogEvent {ℓ} (A : Type ℓ) : Type ℓ where
  started unreachable opened disconnected toggled cleared : LogEvent A
  refused : (status : ℕ) → LogEvent A
  chunk : List A → LogEvent A

-- The text of a refusal; `to_text` is the decimal text of a number.
abbrev pub refusal_text : (to_text : ℕ → String) → ℕ → String
refusal_text to_text status =
    if eqb status 401
    then "Session expired — sign in again"
    else if eqb status 403
    then "Not permitted to read these logs"
    else docksight.Text.concat "Log stream failed (" (docksight.Text.concat (to_text status) ")")

module _ {ℓ} {A : Type ℓ} where
  abbrev pub new_view : LogView A
  new_view = record {
    entries = [];
    status = connecting;
    message = none;
    held = false;
    held_ref = false;
    buffer = [];
    buffered_count = 0;
  }

  -- The effect, before it calls `stream`.
  unfoldable pub start : LogView A → LogView A
  start v = record v {
    entries = [];
    status = connecting;
    message = none;
    buffer = [];
    buffered_count = 0;
  }

  unfoldable pub fail : String → LogView A → LogView A
  fail text v = record v { status = error; message = some text }

  -- setStatus(pausedRef.current ? 'paused' : 'live')
  unfoldable pub open_stream : LogView A → LogView A
  open_stream v = record v { status = if v.held_ref then paused else live }

  unfoldable pub buffer_entries : List A → LogView A → LogView A
  buffer_entries next v =
      let all = take_last max_entries (v.buffer ++ next) in
      record v { buffer = all; buffered_count = length all }

  unfoldable pub show_entries : List A → LogView A → LogView A
  show_entries next v = record v {
    entries = take_last max_entries (v.entries ++ next);
    status = live;
  }

  unfoldable pub push_entries : List A → LogView A → LogView A
  unfolding buffer_entries show_entries
  push_entries [] v = v
  push_entries (e ∷ es) v =
      if v.held_ref then buffer_entries (e ∷ es) v else show_entries (e ∷ es) v

  -- What resuming does with the buffer.
  abbrev pub flush : List A → LogView A → LogView A
  flush [] v = v
  flush (e ∷ es) v = record v {
    entries = take_last max_entries (v.entries ++ (e ∷ es));
    buffer = [];
    buffered_count = 0;
  }

  unfoldable pub toggle_pause : LogView A → LogView A
  toggle_pause v =
      if v.held
      then record (flush v.buffer v) { status = live; held = false }
      else record v { status = paused; held = true }

  -- The effect on `paused`.
  unfoldable pub commit_paused : LogView A → LogView A
  commit_paused v = record v { held_ref = v.held }

  unfoldable pub clear : LogView A → LogView A
  clear v = record v { entries = []; buffer = []; buffered_count = 0 }

module _ {ℓ} {A : Type ℓ} (to_text : ℕ → String) where
  unfoldable pub apply : LogEvent A → LogView A → LogView A
  unfolding start fail open_stream push_entries toggle_pause commit_paused clear
  apply started v = start v
  apply unreachable v = fail "Could not reach the log stream" v
  apply (refused status) v = fail (refusal_text to_text status) v
  apply opened v = open_stream v
  apply (chunk next) v = push_entries next v
  apply disconnected v = fail "Log stream disconnected" v
  apply toggled v = commit_paused (toggle_pause v)
  apply cleared v = clear v

  -- The view after the events, from a view on.
  unfoldable pub run : List (LogEvent A) → LogView A → LogView A
  unfolding apply
  run [] v = v
  run (e ∷ es) v = run es (apply e v)

module _ {ℓ} {A : Type ℓ} where
  -- What a view is to show after an event: all that has come since the stream was started or the view
  -- was cleared, given what it is to show before.
  abbrev pub since : LogEvent A → List A → List A
  since started log = []
  since cleared log = []
  since (chunk next) log = log ++ next
  since _ log = log

  unfoldable pub received : List (LogEvent A) → List A → List A
  received [] log = log
  received (e ∷ es) log = received es (since e log)
