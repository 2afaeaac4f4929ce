-- ===== src/Tests/LogStream.antt =====
-- A stream of log lines that comes in two pieces and is paused on the way.
use docksight.Base.{
  ℕ, ◌≤◌, ◌≡◌, refl, String, Option, none, some, List, [], ◌∷◌, false, take_last, arith,
}
use docksight.Text.{characters, trim, trim_start, trim_end}
use docksight.Json.{Json, obj, field, end, arr, cons, nil, str}
use docksight.Web.LogStream.Frames.{split_frame, drain}
use docksight.Web.LogStream.Drain.{drain_enough}
use docksight.Web.LogStream.View.{
  LogEvent, started, opened, toggled, chunk, max_entries, new_view, start, open_stream,
  buffer_entries, show_entries, push_entries, toggle_pause, commit_paused, apply, run, received,
}
use docksight.Web.LogStream.Lossless.{run-received}
use docksight.Web.LogStream.Chunk.{read_pieces}
use docksight.Web.LogStream.Lines.{one_line}
use docksight.Web.LogStream.Wire.{SentChunk, IsPlain, push_all, read_pieces-wire}

abbrev two_frames : String
two_frames = "data: a\n\ndata: b\n\ndata"

two_frames-characters : characters two_frames ≤ 30
two_frames-characters = ground arith

drain_enough_example : split_frame (drain 30 two_frames).1 ≡ none
drain_enough_example = drain_enough 30 two_frames two_frames-characters

-- JSON.parse of a text that it takes for a chunk with one entry.
abbrev parse_chunk : String → Option (Json ℕ)
parse_chunk text = some (obj (field "entries" (arr (cons (str text) nil)) end))

abbrev two_chunks : List SentChunk
two_chunks = record { id = "1"; body = "[1]" } ∷ record { id = "2"; body = "[2]" } ∷ []

one_chunk-IsPlain : IsPlain (record { id = "1"; body = "[1]" })
unfolding one_line trim trim_start trim_end
one_chunk-IsPlain = record { id_line = refl; body_line = refl; trimmed = refl }

other_chunk-IsPlain : IsPlain (record { id = "2"; body = "[2]" })
unfolding one_line trim trim_start trim_end
other_chunk-IsPlain = record { id_line = refl; body_line = refl; trimmed = refl }

abbrev cut_pieces : List String
cut_pieces =
    "event: logs.chunk\nid: 1\nda" ∷ "ta: [1]\n" ∷ "\nevent: logs.chunk\nid: 2\ndata: [2]\n\n" ∷ []

read_pieces-wire_example :
    read_pieces parse_chunk cut_pieces ("", new_view)
    ≡ ("", push_all parse_chunk two_chunks new_view)
read_pieces-wire_example =
    read_pieces-wire parse_chunk two_chunks cut_pieces new_view
      (one_chunk-IsPlain, (other_chunk-IsPlain, tt)) refl

abbrev number_text : ℕ → String
number_text n = "n"

abbrev paused_events : List (LogEvent ℕ)
paused_events =
    started ∷ opened ∷ chunk (1 ∷ []) ∷ toggled ∷ chunk (2 ∷ []) ∷ toggled ∷ chunk (3 ∷ []) ∷ []

run_paused : (run number_text paused_events new_view).held ≡ false
unfolding run apply start open_stream push_entries buffer_entries show_entries toggle_pause
    commit_paused
run_paused = refl

run-received_example :
    (run number_text paused_events new_view).entries
    ≡ take_last max_entries (received paused_events [])
run-received_example = run-received number_text paused_events run_paused
