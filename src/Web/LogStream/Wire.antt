-- ===== src/Web/LogStream/Wire.antt =====
-- What the view gets from a stream of server-sent events does not depend on how the network cuts it,
-- and is what the server has sent.
use docksight.Base.{String, ◌≡◌, refl, sym, ap, ◌∙◌, true, Option, List, [], ◌∷◌, ◌++◌, All, map}
use docksight.Text.{starts_with, trim, trim_start, concat}
use docksight.Json.{Json}
use docksight.Web.LogStream.Frames.{drain, feed, feed_all, whole_text}
use docksight.Web.LogStream.Drain.{feed_all-pieces, after, drain_all, drain-first}
use docksight.Web.LogStream.View.{LogView}
use docksight.Web.LogStream.Chunk.{
  no_fields, split_lines, read_line, read_lines, join_lines, payload_entries, pushed_by,
  handle_frame, push_if, handle_frames, read_piece, read_pieces,
}
use docksight.Web.LogStream.Lines.{
  one_line, full_line, split_lines-join_lines, split_frame-join_lines,
}

-- A chunk of log lines as the server sends it: the number of the event, and its data.
pub record SentChunk : Type 0 where
  pub id : String
  pub body : String

abbrev more_lines : SentChunk → List String
more_lines c = concat "id: " c.id ∷ concat "data: " c.body ∷ []

abbrev pub event_lines : SentChunk → List String
event_lines c = "event: logs.chunk" ∷ more_lines c

-- The text of the events on the stream, each with the blank line that ends it.
abbrev pub wire : List SentChunk → String
wire [] = ""
wire (c ∷ cs) = concat (join_lines (event_lines c)) (concat "\n\n" (wire cs))

-- JSON text has no line feed and no space around it, and the number of an event has no line feed.
pub record IsPlain (c : SentChunk) : Type 0 where
  pub id_line : one_line c.id ≡ true
  pub body_line : one_line c.body ≡ true
  pub trimmed : trim c.body ≡ c.body

event-IsFull : (c : SentChunk) → IsPlain c → All (λ l. full_line l ≡ true) (event_lines c)
unfolding one_line
event-IsFull c p = (refl, (p.id_line, (p.body_line, tt)))

module _ {Num : Type 0} (parse : String → Option (Json Num)) where
  handle_frames-append :
      (fs gs : List String) (v : LogView (Json Num))
      → handle_frames parse (fs ++ gs) v ≡ handle_frames parse gs (handle_frames parse fs v)
  unfolding handle_frames
  handle_frames-append [] gs v = refl
  handle_frames-append (f ∷ fs) gs v = handle_frames-append fs gs _

  read_pieces-frames :
      (pieces : List String) (b : String) (v : LogView (Json Num))
      → read_pieces parse pieces (b, v)
        ≡ ((feed_all b pieces).1, handle_frames parse (feed_all b pieces).0 v)
  unfolding read_pieces read_piece feed_all handle_frames
  read_pieces-frames [] b v = refl
  read_pieces-frames (p ∷ ps) b v =
      let now = feed b p in
      read_pieces-frames ps now.1 (handle_frames parse now.0 v)
      ∙ ap (λ w. ((feed_all now.1 ps).1, w))
          (sym (handle_frames-append now.0 (feed_all now.1 ps).0 v))

  -- However the text of a stream is cut into pieces, reading the pieces one after the other leaves the
  -- same view, and the same text in the buffer, as reading all of it at once.
  pub read_pieces-joined :
      (pieces : List String) (v : LogView (Json Num))
      → read_pieces parse pieces ("", v) ≡ read_piece parse (whole_text pieces) ("", v)
  unfolding read_piece
  read_pieces-joined pieces v =
      read_pieces-frames pieces "" v
      ∙ ap (λ d. (d.1, handle_frames parse d.0 v)) (feed_all-pieces pieces).0

  handle_frame-event :
      (c : SentChunk)
      → IsPlain c
      → handle_frame parse (join_lines (event_lines c)) ≡ payload_entries (parse c.body)
  unfolding handle_frame read_lines read_line split_lines starts_with trim trim_start
  handle_frame-event c p =
      let (h, hs) = event-IsFull c p in
      ap (λ ls. pushed_by parse (read_lines ls no_fields))
        (split_lines-join_lines "event: logs.chunk" (more_lines c) h hs)
      ∙ ap (λ t. payload_entries (parse t)) p.trimmed

  -- What the view is to become: the entries of each chunk, in the order in which they were sent.
  abbrev pub push_all : List SentChunk → LogView (Json Num) → LogView (Json Num)
  push_all [] v = v
  push_all (c ∷ cs) v = push_all cs (push_if (payload_entries (parse c.body)) v)

  drain-wire :
      (cs : List SentChunk)
      → All IsPlain cs
      → drain_all (wire cs) ≡ (map (λ c. join_lines (event_lines c)) cs, "")
  unfolding drain
  drain-wire [] ps = refl
  drain-wire (c ∷ cs) (p, ps) =
      let (h, hs) = event-IsFull c p in
      drain-first (wire (c ∷ cs)) _ (wire cs)
        (split_frame-join_lines "event: logs.chunk" (more_lines c) (wire cs) h hs)
      ∙ ap (after (join_lines (event_lines c) ∷ [])) (drain-wire cs ps)

  handle_frames-wire :
      (cs : List SentChunk) (v : LogView (Json Num))
      → All IsPlain cs
      → handle_frames parse (map (λ c. join_lines (event_lines c)) cs) v ≡ push_all cs v
  unfolding handle_frames
  handle_frames-wire [] v ps = refl
  handle_frames-wire (c ∷ cs) v (p, ps) =
      handle_frames-wire cs _ ps ∙ ap (λ o. push_all cs (push_if o v)) (handle_frame-event c p)

  -- Chunks that the server sends as server-sent events, with data that is JSON text of one line, come to
  -- the view as they were sent: whatever the pieces in which the network delivers their text, the view
  -- gets the entries of each chunk once and in order, and no text is left in the buffer.
  pub read_pieces-wire :
      (cs : List SentChunk) (pieces : List String) (v : LogView (Json Num))
      → All IsPlain cs
      → whole_text pieces ≡ wire cs
      → read_pieces parse pieces ("", v) ≡ ("", push_all cs v)
  unfolding read_piece feed
  read_pieces-wire cs pieces v ps e =
      read_pieces-joined pieces v
      ∙ ap (λ t. read_piece parse t ("", v)) e
      ∙ ap (λ d. (d.1, handle_frames parse d.0 v)) (drain-wire cs ps)
      ∙ ap (λ w. ("", w)) (handle_frames-wire cs v ps)
