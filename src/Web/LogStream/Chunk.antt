-- ===== src/Web/LogStream/Chunk.antt =====
-- apps/web/src/hooks/useContainerLogs.ts: handleFrame, and the loop of `stream` that reads a piece,
-- cuts its frames and hands their entries to the view. JSON.parse is a parameter.
use docksight.Base.{String, Option, none, some, List, [], ◌∷◌, ◌++◌, ◌==◌, eqb, if◌then◌else◌}
use docksight.Text.{starts_with, trim, concat, code}
use docksight.Json.{Json, null, obj, items, prop, as_array}
use docksight.Web.LogStream.Frames.{feed}
use docksight.Web.LogStream.View.{LogView, push_entries}

-- The character that the first line has before it.
abbrev pub onto_line : String → List String → List String
onto_line c [] = c ∷ []
onto_line c (line ∷ lines) = concat c line ∷ lines

-- s.split('\n')
unfoldable pub split_lines : String → List String
split_lines String.[] = "" ∷ []
split_lines (String.◌∷◌ c s) =
    let later = split_lines s in
    if eqb (code c) 10 then "" ∷ later else onto_line (String.◌∷◌ c "") later

-- lines.join('\n')
abbrev pub join_lines : List String → String
join_lines [] = ""
join_lines (line ∷ []) = line
join_lines (line ∷ next ∷ lines) = concat line (concat "\n" (join_lines (next ∷ lines)))

-- `line.slice(prefix.length)`, of a line that starts with the prefix.
abbrev pub strip : String → String → String
strip String.[] line = line
strip (String.◌∷◌ c p) String.[] = ""
strip (String.◌∷◌ c p) (String.◌∷◌ d line) = strip p line

pub record SseFields : Type 0 where
  pub event_name : String
  pub data_lines : List String

abbrev pub no_fields : SseFields
no_fields = record { event_name = "message"; data_lines = [] }

unfoldable pub read_line : String → SseFields → SseFields
unfolding starts_with trim
read_line line f =
    if starts_with "event:" line
    then record f { event_name = trim (strip "event:" line) }
    else if starts_with "data:" line
    then record f { data_lines = f.data_lines ++ (trim (strip "data:" line) ∷ []) }
    else f

unfoldable pub read_lines : List String → SseFields → SseFields
unfolding read_line
read_lines [] f = f
read_lines (line ∷ lines) f = read_lines lines (read_line line f)

module _ {Num : Type 0} where
  -- `payload.entries`, where `none` is the exception that the source ignores.
  abbrev pub payload_entries : Option (Json Num) → Option (List (Json Num))
  payload_entries none = none
  payload_entries (some null) = none
  payload_entries (some (obj fs)) = elim (as_array (prop "entries" fs)) [
    | none ↦ some []
    | some vs ↦ some (items vs)
  ]
  payload_entries (some _) = some []

  abbrev pub push_if : Option (List (Json Num)) → LogView (Json Num) → LogView (Json Num)
  push_if none v = v
  push_if (some next) v = push_entries next v

module _ {Num : Type 0} (parse : String → Option (Json Num)) where
  -- What a frame with these fields pushes.
  abbrev pub pushed_by : SseFields → Option (List (Json Num))
  pushed_by f = elim f.data_lines [
    | [] ↦ none
    | line ∷ lines ↦
        if f.event_name == "logs.chunk"
        then payload_entries (parse (join_lines (line ∷ lines)))
        else none
  ]

  -- What a frame pushes, if it does.
  unfoldable pub handle_frame : String → Option (List (Json Num))
  unfolding split_lines read_lines
  handle_frame frame = pushed_by (read_lines (split_lines frame) no_fields)

  unfoldable pub handle_frames : List String → LogView (Json Num) → LogView (Json Num)
  unfolding handle_frame
  handle_frames [] v = v
  handle_frames (frame ∷ frames) v = handle_frames frames (push_if (handle_frame frame) v)

  -- One turn of the loop that reads the stream: its buffer and the view.
  unfoldable pub read_piece : String → String × LogView (Json Num) → String × LogView (Json Num)
  unfolding feed handle_frames
  read_piece piece (buffer, v) = let cut = feed buffer piece in (cut.1, handle_frames cut.0 v)

  unfoldable pub read_pieces :
      List String → String × LogView (Json Num) → String × LogView (Json Num)
  unfolding read_piece
  read_pieces [] s = s
  read_pieces (piece ∷ pieces) s = read_pieces pieces (read_piece piece s)
