-- ===== src/Web/LogStream/Drain.antt =====
-- The loop that cuts frames comes to an end, and it does not matter in which pieces the text of a
-- stream is read.
use docksight.Base.{
  ℕ, zero, suc, ◌≤◌, ◌<◌, String, ◌≡◌, refl, sym, ap, ◌∙◌, inl, inr, Option, none, some, List, [],
  ◌∷◌, ◌++◌, Bool-cases, Option-cases, arith,
}
use docksight.Text.{starts_with, concat, characters}
use docksight.Web.LogStream.Frames.{
  onto_frame, handle_next, past_first, split_frame, drain, feed, feed_all, whole_text,
}

past_first-characters : (s : String) → characters (past_first s) ≤ characters s
past_first-characters String.[] = ground arith
past_first-characters (String.◌∷◌ c s) = ground arith

onto_frame-rest :
    (c : String) (o : Option (String × String)) (f r : String)
    → onto_frame c o ≡ some (f, r)
    → (g : String) × (o ≡ some (g, r))
onto_frame-rest c none f r e = ground arith
onto_frame-rest c (some (g, q)) f r e = (g, ground arith)

split-characters : (b f r : String) → split_frame b ≡ some (f, r) → characters r < characters b
unfolding split_frame
split-characters String.[] f r e = ground arith
split-characters (String.◌∷◌ c s) f r e = elim (Bool-cases (starts_with "\n\n" (String.◌∷◌ c s))) [
  | inl t ↦ ground (arith, past_first-characters s)
  | inr t ↦
      let (g, later) = onto_frame-rest (String.◌∷◌ c "") (split_frame s) f r (ground arith) in
      ground (arith, split-characters s g r later)
]

characters-zero : (b : String) → characters b ≤ 0 → split_frame b ≡ none
unfolding split_frame
characters-zero String.[] h = refl
characters-zero (String.◌∷◌ c s) h = ground arith

drain-last : (n : ℕ) (b : String) → split_frame b ≡ none → drain n b ≡ ([], b)
unfolding drain
drain-last zero b e = refl
drain-last (suc n) b e = ap (handle_next (drain n) b) e

drain-next :
    (n : ℕ) (b f r : String)
    → split_frame b ≡ some (f, r)
    → drain (suc n) b ≡ (f ∷ (drain n r).0, (drain n r).1)
unfolding drain
drain-next n b f r e = ap (handle_next (drain n) b) e

pub drain_enough : (n : ℕ) (b : String) → characters b ≤ n → split_frame (drain n b).1 ≡ none
drain_enough zero b h = rw (drain-last 0 b (characters-zero b h)) (characters-zero b h)
drain_enough (suc n) b h = elim (Option-cases (split_frame b)) [
  | inl e ↦ rw (drain-last (suc n) b e) e
  | inr ((f, r), e) ↦
      rw (drain-next n b f r e) (drain_enough n r (ground (arith, split-characters b f r e)))
]

-- Enough turns are as good as any greater number of them.
pub drain-turns :
    (n m : ℕ) (b : String) → characters b ≤ n → characters b ≤ m → drain n b ≡ drain m b
drain-turns zero m b h k = let e = characters-zero b h in drain-last 0 b e ∙ sym (drain-last m b e)
drain-turns (suc n) zero b h k =
    let e = characters-zero b k in drain-last (suc n) b e ∙ sym (drain-last 0 b e)
drain-turns (suc n) (suc m) b h k = elim (Option-cases (split_frame b)) [
  | inl e ↦ drain-last (suc n) b e ∙ sym (drain-last (suc m) b e)
  | inr ((f, r), e) ↦
      let less = split-characters b f r e in
      let p = drain-turns n m r (ground arith) (ground arith) in
      drain-next n b f r e ∙ ap (λ d. (f ∷ d.0, d.1)) p ∙ sym (drain-next m b f r e)
]

-- What comes after does not change the first frame.
split-more :
    (b t f r : String)
    → split_frame b ≡ some (f, r)
    → split_frame (concat b t) ≡ some (f, concat r t)
unfolding split_frame starts_with
split-more String.[] t f r e = ground arith
split-more (String.◌∷◌ c String.[]) t f r e = ground arith
split-more (String.◌∷◌ c (String.◌∷◌ d s)) t f r e =
    elim (Bool-cases (starts_with "\n\n" (String.◌∷◌ c (String.◌∷◌ d s)))) [
      | inl y ↦ ground arith
      | inr y ↦
          let (g, later) =
            onto_frame-rest (String.◌∷◌ c "") (split_frame (String.◌∷◌ d s)) f r (ground arith) in
          let more = split-more (String.◌∷◌ d s) t g r later in ground arith
    ]

pub concat_assoc : (a b c : String) → concat (concat a b) c ≡ concat a (concat b c)
concat_assoc String.[] b c = refl
concat_assoc (String.◌∷◌ d a) b c = ap (String.◌∷◌ d) (concat_assoc a b c)

concat_empty : (a : String) → concat a "" ≡ a
concat_empty String.[] = refl
concat_empty (String.◌∷◌ d a) = ap (String.◌∷◌ d) (concat_empty a)

-- The frames that `fs` stands before.
abbrev pub after : List String → List String × String → List String × String
after fs d = (fs ++ d.0, d.1)

append_assoc : (xs ys zs : List String) → (xs ++ ys) ++ zs ≡ xs ++ (ys ++ zs)
append_assoc [] ys zs = refl
append_assoc (x ∷ xs) ys zs = ap (x ∷◌) (append_assoc xs ys zs)

abbrev pub drain_all : String → List String × String
drain_all b = drain (characters b) b

-- The frame that the whole text starts with, and those of the rest.
pub drain-first :
    (b f r : String) → split_frame b ≡ some (f, r) → drain_all b ≡ after (f ∷ []) (drain_all r)
drain-first b f r e =
    let less = split-characters b f r e in
    drain-turns (characters b) (suc (characters b)) b (ground arith) (ground arith)
    ∙ drain-next (characters b) b f r e
    ∙ ap (after (f ∷ []))
        (drain-turns (characters b) (characters r) r (ground arith) (ground arith))

-- A buffer that is drained before the rest of the text comes gives the same frames.
drain-concat :
    (n : ℕ) (b t : String)
    → characters b ≤ n
    → drain_all (concat b t) ≡ after (drain n b).0 (drain_all (concat (drain n b).1 t))
drain-concat zero b t h = rw (drain-last 0 b (characters-zero b h)) refl
drain-concat (suc n) b t h = elim (Option-cases (split_frame b)) [
  | inl e ↦ rw (drain-last (suc n) b e) refl
  | inr ((f, r), e) ↦
      let less = split-characters b f r e in
      rw (drain-next n b f r e) (
        drain-first (concat b t) f (concat r t) (split-more b t f r e)
        ∙ ap (after (f ∷ [])) (drain-concat n r t (ground arith)))
]

feed_all-from :
    (b : String) (pieces : List String)
    → split_frame b ≡ none
    → feed_all b pieces ≡ drain_all (concat b (whole_text pieces))
unfolding feed_all feed
feed_all-from b [] e = rw (concat_empty b) (sym (drain-last (characters b) b e))
feed_all-from b (p ∷ ps) e =
    let all = concat b p in
    let d = drain_all all in
    ap (after d.0) (feed_all-from d.1 ps (drain_enough (characters all) all (ground arith)))
    ∙ sym (drain-concat (characters all) all (whole_text ps) (ground arith))
    ∙ ap drain_all (concat_assoc b p (whole_text ps))

-- However the text of a stream is cut into pieces, reading the pieces one after the other handles the
-- same frames in the same order, and leaves the same buffer, as reading the whole text at once; and
-- the buffer that is left has no complete frame in it.
pub feed_all-pieces :
    (pieces : List String)
    → (feed_all "" pieces ≡ feed "" (whole_text pieces))
      × (split_frame (feed_all "" pieces).1 ≡ none)
unfolding feed
feed_all-pieces pieces =
    let p = feed_all-from "" pieces refl in
    let all = whole_text pieces in
    (p, ap (λ d. split_frame d.1) p ∙ drain_enough (characters all) all (ground arith))
