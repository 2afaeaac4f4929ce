-- ===== src/Web/LogsView/Levels.antt =====
-- Which messages have which level.
use docksight.Base.{
  String, Bool, true, false, not, ◌≡◌, refl, ◌&&◌, ◌||◌, ◌↔◌, List, [], ◌∷◌, some, eqb, ◌==◌,
  eq_iff, eq_refl, Bool-cases, Option-cases, inl, inr, arith, ap, subst, sym,
}
use docksight.Text.{code, concat}
use docksight.Web.LogsView.{
  is_word_char, lower_ascii, after_word, starts_word_char, ends_there, one_at, has_word,
}

abbrev pub is_among : String → List String → Bool
is_among w [] = false
is_among w (v ∷ words) = v == w || is_among w words

-- A part of a text is a word, without regard to case.
abbrev pub same_letters : String → String → Bool
same_letters String.[] String.[] = true
same_letters (String.◌∷◌ k word) (String.◌∷◌ c s) =
    eqb (lower_ascii (code c)) (code k) && same_letters word s
same_letters _ _ = false

-- Whether a word character stands at the end of a text, or before it where it is empty.
abbrev pub ends_inside : Bool → String → Bool
ends_inside inside String.[] = inside
ends_inside inside (String.◌∷◌ c s) = ends_inside (is_word_char (code c)) s

-- One of the words stands in the text where no word character comes before it, and, where the whole word
-- is asked for, none after it.
abbrev pub HasWord : (inside whole : Bool) → List String → String → Type 0
HasWord inside whole words s =
    (before : String) × ((word : String) × ((part : String) × ((rest : String) × ((s
              ≡ concat before (concat part rest))
            × (is_among word words ≡ true)
            × (same_letters word part ≡ true)
            × (ends_inside inside before ≡ false)
            × ((whole && starts_word_char rest) ≡ false)))))

after_word-split :
    (word s rest : String)
    → after_word word s ≡ some rest
    → (part : String) × ((same_letters word part ≡ true) × (s ≡ concat part rest))
unfolding after_word
after_word-split String.[] s rest e = ("", (refl, ground (arith, e)))
after_word-split (String.◌∷◌ k word) String.[] rest e = absurd (ground (arith, e))
after_word-split (String.◌∷◌ k word) (String.◌∷◌ c s) rest e =
    elim (Bool-cases (eqb (lower_ascii (code c)) (code k))) [
      | inl same ↦
          let (part, (letters, split)) = after_word-split word s rest (ground (arith, e, same)) in
          (String.◌∷◌ c part, (rw same letters, ap (String.◌∷◌ c) split))
      | inr differs ↦ absurd (ground (arith, e, differs))
    ]

after_word-concat :
    (word part rest : String)
    → same_letters word part ≡ true
    → after_word word (concat part rest) ≡ some rest
unfolding after_word
after_word-concat String.[] String.[] rest e = refl
after_word-concat String.[] (String.◌∷◌ c part) rest e = absurd (ground (arith, e))
after_word-concat (String.◌∷◌ k word) String.[] rest e = absurd (ground (arith, e))
after_word-concat (String.◌∷◌ k word) (String.◌∷◌ c part) rest e =
    let same : eqb (lower_ascii (code c)) (code k) ≡ true = ground (arith, e) in
    rw same (after_word-concat word part rest (ground (arith, e)))

abbrev WordAt : Bool → List String → String → Type 0
WordAt whole words s =
    (word : String) × ((part : String) × ((rest : String) × ((s ≡ concat part rest)
          × (is_among word words ≡ true)
          × (same_letters word part ≡ true)
          × ((whole && starts_word_char rest) ≡ false))))

one_at-WordAt :
    (whole : Bool) (words : List String) (s : String)
    → one_at whole words s ≡ true
    → WordAt whole words s
unfolding one_at
one_at-WordAt whole [] s e = absurd (ground (arith, e))
one_at-WordAt whole (w ∷ words) s e = elim (Bool-cases (ends_there whole (after_word w s))) [
  | inr not_here ↦
      let (word, (part, (rest, (split, among, letters, end)))) =
        one_at-WordAt whole words s (ground (arith, e, not_here)) in
      (word, (part, (rest, (split, ground (arith, among), letters, end))))
  | inl here ↦ elim (Option-cases (after_word w s)) [
    | inl n ↦ absurd (ground (arith, here, n))
    | inr (rest, n) ↦
        let (part, (letters, split)) = after_word-split w s rest n in
        (w, (part, (rest, (split, ground (arith, eq_refl w), letters, ground (arith, here, n)))))
  ]
]

WordAt-one_at :
    (whole : Bool) (words : List String) (word part rest : String)
    → is_among word words ≡ true
    → same_letters word part ≡ true
    → (whole && starts_word_char rest) ≡ false
    → one_at whole words (concat part rest) ≡ true
unfolding one_at
WordAt-one_at whole [] word part rest m l e = absurd (ground (arith, m))
WordAt-one_at whole (w ∷ words) word part rest m l e = elim (Bool-cases (w == word)) [
  | inl same ↦
      let found : after_word w (concat part rest) ≡ some rest =
        after_word-concat w part rest
          (subst (λ v. same_letters v part ≡ true) (sym ((eq_iff w word).0 same)) l) in
      rw found (ground (arith, e))
  | inr differs ↦
      let later = WordAt-one_at whole words word part rest (ground (arith, m, differs)) l e in
      ground (arith, later)
]

has_word_sound :
    (inside whole : Bool) (words : List String) (s : String)
    → has_word inside whole words s ≡ true
    → HasWord inside whole words s
unfolding has_word
has_word_sound inside whole words String.[] e =
    let (word, (part, (rest, (split, among, letters, end)))) =
      one_at-WordAt whole words "" (ground (arith, e)) in
    ("", (word, (part, (rest, (split, among, letters, ground (arith, e), end)))))
has_word_sound inside whole words (String.◌∷◌ c s) e =
    elim (Bool-cases (not inside && one_at whole words (String.◌∷◌ c s))) [
      | inl here ↦
          let (word, (part, (rest, (split, among, letters, end)))) =
            one_at-WordAt whole words (String.◌∷◌ c s) (ground (arith, here)) in
          ("", (word, (part, (rest, (split, among, letters, ground (arith, here), end)))))
      | inr later ↦
          let (before, (word, (part, (rest, (split, among, letters, start, end))))) =
            has_word_sound (is_word_char (code c)) whole words s (ground (arith, e, later)) in
          (
            String.◌∷◌ c before,
            (word, (part, (rest, (ap (String.◌∷◌ c) split, among, letters, start, end)))),
          )
    ]

has_word-here :
    (inside whole : Bool) (words : List String) (s : String)
    → inside ≡ false
    → one_at whole words s ≡ true
    → has_word inside whole words s ≡ true
unfolding has_word
has_word-here inside whole words String.[] e f = rw (e, f) refl
has_word-here inside whole words (String.◌∷◌ c s) e f = rw (e, f) refl

has_word_complete :
    (inside whole : Bool) (words : List String) (before word part rest : String)
    → is_among word words ≡ true
    → same_letters word part ≡ true
    → ends_inside inside before ≡ false
    → (whole && starts_word_char rest) ≡ false
    → has_word inside whole words (concat before (concat part rest)) ≡ true
unfolding has_word
has_word_complete inside whole words String.[] word part rest m l start end =
    has_word-here inside whole words (concat part rest) start
      (WordAt-one_at whole words word part rest m l end)
has_word_complete inside whole words (String.◌∷◌ c before) word part rest m l start end =
    let later =
      has_word_complete (is_word_char (code c)) whole words before word part rest m l start end in
    ground (arith, later)

-- The pattern finds a word just where one stands in the text by itself: with no word character before
-- it, and, where the whole word is asked for, none after it. What a word character is, and which letters are
-- the same, is that of is_word_char and lower_ascii.
pub has_word_lem :
    (inside whole : Bool) (words : List String) (s : String)
    → (has_word inside whole words s ≡ true) ↔ HasWord inside whole words s
has_word_lem inside whole words s = (has_word_sound inside whole words s, complete)
  where
    complete : HasWord inside whole words s → has_word inside whole words s ≡ true
    complete (before, (word, (part, (rest, (split, among, letters, start, end))))) =
        subst (λ t. has_word inside whole words t ≡ true) (sym split)
          (has_word_complete inside whole words before word part rest among letters start end)
