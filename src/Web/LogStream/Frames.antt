-- ===== src/Web/LogStream/Frames.antt =====
-- apps/web/src/hooks/useContainerLogs.ts: how `stream` cuts the frames of a server-sent event
-- stream out of the text that it reads, and what `handleFrame` makes of a frame.
use docksight.Base.{ℕ, zero, suc, String, Option, none, some, List, [], ◌∷◌, ◌++◌, if◌then◌else◌}
use docksight.Text.{starts_with, concat, characters}

-- The character that the frame or the line has before the separator.
abbrev pub onto_frame : String → Option (String × String) → Option (String × String)
onto_frame c none = none
onto_frame c (some (frame, rest)) = some (concat c frame, rest)

-- `s.slice(1)`
abbrev pub past_first : String → String
past_first String.[] = ""
past_first (String.◌∷◌ c s) = s

-- The text before the first "\n\n" of the buffer and the text after it: `indexOf` and the slices.
unfoldable pub split_frame : String → Option (String × String)
unfolding starts_with
split_frame String.[] = none
split_frame (String.◌∷◌ c s) =
    let later = split_frame s in
    if starts_with "\n\n" (String.◌∷◌ c s)
    then some ("", past_first s)
    else onto_frame (String.◌∷◌ c "") later

-- The body of the inner loop, with the rest of the loop.
abbrev pub handle_next :
    (String → List String × String) → String → Option (String × String) → List String × String
handle_next go buffer none = ([], buffer)
handle_next go buffer (some (frame, rest)) = (frame ∷ (go rest).0, (go rest).1)

-- The frames that the inner loop handles, in order, and the buffer that it leaves.
unfoldable pub drain : ℕ → String → List String × String
unfolding split_frame
drain zero buffer = ([], buffer)
drain (suc fuel) buffer = handle_next (drain fuel) buffer (split_frame buffer)

-- One turn of the outer loop: the frames that a piece of the stream completes, and the new buffer.
unfoldable pub feed : String → String → List String × String
unfolding drain
feed buffer piece = let all = concat buffer piece in drain (characters all) all

-- The frames of a stream that comes in pieces, from a buffer on, and the buffer at its end.
unfoldable pub feed_all : String → List String → List String × String
unfolding feed
feed_all buffer [] = ([], buffer)
feed_all buffer (piece ∷ pieces) =
    let now = feed buffer piece in let later = feed_all now.1 pieces in (now.0 ++ later.0, later.1)

-- The text that the pieces are of.
abbrev pub whole_text : List String → String
whole_text [] = ""
whole_text (piece ∷ pieces) = concat piece (whole_text pieces)
