-- ===== src/Web/Format/Images.antt =====
-- What is left of the name of an image.
use docksight.Base.{
  ℕ, zero, suc, String, true, false, ◌≡◌, refl, ◌≢◌, List, [], ◌∷◌, ◌==◌, eqb, drop, length, ◌-◌,
  eq_iff, arith, ap, ◌∙◌, sym, subst, Bool-cases, inl, inr, take_last-drop,
}
use Prim.Native.Char.{Char, char}
use text.Mathlib.TextEquality.{Char-path}
use docksight.Text.{code, concat, includes}
use docksight.Web.Format.{prepend, split_slash, join_slash, short_image}

concat_assoc : (s t u : String) → concat (concat s t) u ≡ concat s (concat t u)
concat_assoc String.[] t u = refl
concat_assoc (String.◌∷◌ c s) t u = ap (String.◌∷◌ c) (concat_assoc s t u)

concat_empty : (s : String) → concat s "" ≡ s
concat_empty String.[] = refl
concat_empty (String.◌∷◌ c s) = ap (String.◌∷◌ c) (concat_empty s)

drop_nil : (n : ℕ) → drop {A = String} n [] ≡ []
drop_nil zero = refl
drop_nil (suc n) = refl

-- What stands before the parts that are kept.
join_slash-drop :
    (n : ℕ) (parts : List String)
    → (before : String) × (join_slash parts ≡ concat before (join_slash (drop n parts)))
unfolding join_slash
join_slash-drop zero parts = ("", refl)
join_slash-drop (suc n) [] = ("", refl)
join_slash-drop (suc n) (s ∷ []) = (s, rw (drop_nil n) (sym (concat_empty s)))
join_slash-drop (suc n) (s ∷ t ∷ parts) =
    let (before, e) = join_slash-drop n (t ∷ parts) in
    (
      concat s (concat "/" before),
      ap (λ u. concat s (concat "/" u)) e
          ∙ sym (concat_assoc s (concat "/" before) (join_slash (drop n (t ∷ parts)))),
    )

join_slash-prepend :
    (c : String) (s : String) (parts : List String)
    → join_slash (prepend c (s ∷ parts)) ≡ concat c (join_slash (s ∷ parts))
unfolding join_slash
join_slash-prepend c s [] = refl
join_slash-prepend c s (t ∷ parts) = concat_assoc c s (concat "/" (join_slash (t ∷ parts)))

slash : (c : Char) → eqb (code c) 47 ≡ true → String.◌∷◌ c "" ≡ "/"
slash c e = ap (λ d. String.◌∷◌ d "") (Char-path c (char 47 tt) (ground (arith, e)))

join_slash-cons :
    (s : String) (c : Char) (t : String) (parts : List String)
    → join_slash (t ∷ parts) ≡ s
    → eqb (code c) 47 ≡ true
    → join_slash ("" ∷ t ∷ parts) ≡ String.◌∷◌ c s
unfolding join_slash
join_slash-cons s c t parts e f = ap (λ u. concat "/" u) e ∙ ap (λ u. concat u s) (sym (slash c f))

pub data Parts (l : List String) : Type 0 where
  parts_of : (s : String) (rest : List String) → l ≡ s ∷ rest → Parts l

split_slash-Parts : (s : String) → Parts (split_slash s)
unfolding split_slash
split_slash-Parts String.[] = parts_of "" [] refl
split_slash-Parts (String.◌∷◌ c s) = elim (Bool-cases (eqb (code c) 47)) [
  | inl e ↦ parts_of "" (split_slash s) (rw e refl)
  | inr e ↦ elim (split_slash-Parts s) [
    | parts_of t rest f ↦ parts_of (String.◌∷◌ c t) rest (rw (e, f) refl)
  ]
]

join_slash-split_slash : (s : String) → join_slash (split_slash s) ≡ s
unfolding split_slash
join_slash-split_slash String.[] = unfold join_slash in refl
join_slash-split_slash (String.◌∷◌ c s) = elim (split_slash-Parts s) [
  | parts_of t rest f ↦
      let joined : join_slash (t ∷ rest) ≡ s =
        subst (λ l. join_slash l ≡ s) f (join_slash-split_slash s) in
      elim (Bool-cases (eqb (code c) 47)) [
        | inl e ↦ rw (e, f) (join_slash-cons s c t rest joined e)
        | inr e ↦ rw (e, f) (join_slash-prepend (String.◌∷◌ c "") t rest ∙ ap (String.◌∷◌ c) joined)
      ]
]

-- The name that is shown for an image is the end of its name, with no more than the last two parts of
-- its path, and all of it where there is no slash.
pub short_image_lem :
    (image : String)
    → image ≢ ""
    → ((before : String) × (image ≡ concat before (short_image image)))
      × (includes "/" image ≡ false → short_image image ≡ image)
unfolding short_image
short_image_lem image ne =
    let full : (image == "") ≡ false = ground (arith, eq_iff image "", ne) in
    let parts = split_slash image in
    (
      elim (Bool-cases (includes "/" image)) [
        | inr e ↦ ("", rw (full, e) refl)
        | inl e ↦
            let (before, f) = join_slash-drop (length parts - 2) parts in
            (
              before,
              rw (full, e) (rw (take_last-drop 2 parts) (sym (join_slash-split_slash image) ∙ f)),
            )
      ],
      λ e. rw (full, e) refl,
    )
