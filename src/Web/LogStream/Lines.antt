-- ===== src/Web/LogStream/Lines.antt =====
-- The lines of a server-sent event, and the frame that they make.
use docksight.Base.{
  String, ◌≡◌, refl, ap, ◌∙◌, Bool, true, false, not, ◌&&◌, some, List, [], ◌∷◌, eqb, All, arith,
}
use docksight.Text.{starts_with, concat, code}
use docksight.Web.LogStream.Frames.{split_frame}
use docksight.Web.LogStream.Drain.{concat_assoc}
use docksight.Web.LogStream.Chunk.{split_lines, join_lines}

-- The text has no line feed.
unfoldable pub one_line : String → Bool
one_line String.[] = true
one_line (String.◌∷◌ c s) = not (eqb (code c) 10) && one_line s

-- A line that is not empty, so that no blank line ends the frame early.
abbrev pub full_line : String → Bool
full_line String.[] = false
full_line (String.◌∷◌ c s) = not (eqb (code c) 10) && one_line s

full_line-one_line : (s : String) → full_line s ≡ true → one_line s ≡ true
unfolding one_line
full_line-one_line String.[] h = ground arith
full_line-one_line (String.◌∷◌ c s) h = h

split_lines-one_line : (s : String) → one_line s ≡ true → split_lines s ≡ s ∷ []
unfolding split_lines one_line
split_lines-one_line String.[] h = refl
split_lines-one_line (String.◌∷◌ c s) h = ground (arith, split_lines-one_line s)

-- A line feed ends a line.
split_lines-feed :
    (s t : String) → one_line s ≡ true → split_lines (concat s (concat "\n" t)) ≡ s ∷ split_lines t
unfolding split_lines one_line
split_lines-feed String.[] t h = refl
split_lines-feed (String.◌∷◌ c s) t h = ground (arith, split_lines-feed s t)

pub split_lines-join_lines :
    (l : String) (ls : List String)
    → full_line l ≡ true
    → All (λ m. full_line m ≡ true) ls
    → split_lines (join_lines (l ∷ ls)) ≡ l ∷ ls
split_lines-join_lines l [] h hs = split_lines-one_line l (full_line-one_line l h)
split_lines-join_lines l (m ∷ ls) h (k, hs) =
    split_lines-feed l (join_lines (m ∷ ls)) (full_line-one_line l h)
    ∙ ap (l ∷◌) (split_lines-join_lines m ls k hs)

-- A text of one line before a blank line is a frame.
split_frame-one_line :
    (s rest : String)
    → one_line s ≡ true
    → split_frame (concat s (concat "\n\n" rest)) ≡ some (s, rest)
unfolding split_frame one_line starts_with
split_frame-one_line String.[] rest h = refl
split_frame-one_line (String.◌∷◌ c s) rest h = ground (arith, split_frame-one_line s rest)

-- A line feed before a line that is not empty ends no frame.
split_frame-feed :
    (s t f r : String)
    → one_line s ≡ true
    → starts_with "\n" t ≡ false
    → split_frame t ≡ some (f, r)
    → split_frame (concat s (concat "\n" t)) ≡ some (concat s (concat "\n" f), r)
unfolding split_frame one_line starts_with
split_frame-feed String.[] t f r h k e = ground arith
split_frame-feed (String.◌∷◌ c s) t f r h k e = ground (arith, split_frame-feed s t f r)

full_line-start : (l t : String) → full_line l ≡ true → starts_with "\n" (concat l t) ≡ false
unfolding starts_with
full_line-start String.[] t h = ground arith
full_line-start (String.◌∷◌ c l) t h = ground arith

join_lines-start :
    (l : String) (ls : List String) (t : String)
    → full_line l ≡ true
    → starts_with "\n" (concat (join_lines (l ∷ ls)) t) ≡ false
join_lines-start l [] t h = full_line-start l t h
join_lines-start l (m ∷ ls) t h =
    rw (concat_assoc l (concat "\n" (join_lines (m ∷ ls))) t) (full_line-start l _ h)

-- Lines that are not empty, before a blank line, are a frame.
pub split_frame-join_lines :
    (l : String) (ls : List String) (rest : String)
    → full_line l ≡ true
    → All (λ m. full_line m ≡ true) ls
    → split_frame (concat (join_lines (l ∷ ls)) (concat "\n\n" rest))
      ≡ some (join_lines (l ∷ ls), rest)
split_frame-join_lines l [] rest h hs = split_frame-one_line l rest (full_line-one_line l h)
split_frame-join_lines l (m ∷ ls) rest h (k, hs) =
    rw (concat_assoc l (concat "\n" (join_lines (m ∷ ls))) (concat "\n\n" rest)) (
      split_frame-feed l _ _ rest (full_line-one_line l h) (join_lines-start m ls _ k)
        (split_frame-join_lines m ls rest k hs))
