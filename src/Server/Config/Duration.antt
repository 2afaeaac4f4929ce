-- ===== src/Server/Config/Duration.antt =====
-- The durations that the pattern of the configuration accepts.
use docksight.Base.{
  ℕ, String, Bool, true, false, not, ◌≡◌, refl, ◌↔◌, inl, inr, ◌&&◌, ◌||◌, Option, none, some, eqb,
  arith, Bool-cases, if◌then◌else◌, ◌∙◌, ap,
}
use docksight.Text.{code, is_space, concat, trim_start}
use docksight.Server.Config.{
  is_digit, skip_digits, starts_digit, is_letter, is_unit, after_fraction, ends_in_unit,
  is_duration,
}

-- Every character of a text has the property.
abbrev pub AllChars : (ℕ → Bool) → String → Type 0
AllChars p String.[] = Unit
AllChars p (String.◌∷◌ c s) = (p (code c) ≡ true) × AllChars p s

-- One digit or more.
abbrev pub IsDigits : String → Type 0
IsDigits s = (starts_digit s ≡ true) × AllChars is_digit s

-- Nothing, or a point and digits.
abbrev pub IsFraction : String → Type 0
IsFraction String.[] = Unit
IsFraction (String.◌∷◌ c f) = (eqb (code c) 46 ≡ true) × IsDigits f

-- A number, perhaps with a fraction, then any spaces, then perhaps a unit.
abbrev pub IsDuration : String → Type 0
IsDuration s =
    (number : String) × ((fraction : String) × ((spaces : String) × ((unit : String) × (IsDigits
              number
            × IsFraction fraction
            × AllChars is_space spaces
            × (is_unit unit ≡ true)
            × (s ≡ concat number (concat fraction (concat spaces unit)))))))

-- The digits that `skip_digits` skips, and the spaces that `trim_start` does.
abbrev digits_of : String → String
digits_of String.[] = ""
digits_of (String.◌∷◌ c s) =
    let rest = digits_of s in if is_digit (code c) then String.◌∷◌ c rest else ""

abbrev spaces_of : String → String
spaces_of String.[] = ""
spaces_of (String.◌∷◌ c s) =
    let rest = spaces_of s in if is_space (code c) then String.◌∷◌ c rest else ""

digits-split :
    (s : String) → (s ≡ concat (digits_of s) (skip_digits s)) × AllChars is_digit (digits_of s)
unfolding skip_digits
digits-split String.[] = (refl, tt)
digits-split (String.◌∷◌ c s) = elim (Bool-cases (is_digit (code c))) [
  | inl e ↦ rw e (ap (String.◌∷◌ c) (digits-split s).0, (e, (digits-split s).1))
  | inr e ↦ rw e (refl, tt)
]

spaces-split :
    (s : String) → (s ≡ concat (spaces_of s) (trim_start s)) × AllChars is_space (spaces_of s)
unfolding trim_start
spaces-split String.[] = (refl, tt)
spaces-split (String.◌∷◌ c s) = elim (Bool-cases (is_space (code c))) [
  | inl e ↦ rw e (ap (String.◌∷◌ c) (spaces-split s).0, (e, (spaces-split s).1))
  | inr e ↦ rw e (refl, tt)
]

starts-digits_of : (s : String) → starts_digit s ≡ true → starts_digit (digits_of s) ≡ true
starts-digits_of String.[] e = e
starts-digits_of (String.◌∷◌ c s) e = rw e e

after_fraction-split :
    (r t : String)
    → after_fraction r ≡ some t
    → (fraction : String) × (IsFraction fraction × (r ≡ concat fraction t))
unfolding after_fraction
after_fraction-split String.[] t e = ("", (tt, ground (arith, e)))
after_fraction-split (String.◌∷◌ c s) t e = elim (Bool-cases (eqb (code c) 46)) [
  | inr other ↦ ("", (tt, ground (arith, e, other)))
  | inl point ↦ elim (Bool-cases (starts_digit s)) [
    | inr no_digit ↦ absurd (ground (arith, e, point, no_digit))
    | inl digit ↦
        let rest : skip_digits s ≡ t = ground (arith, e, point, digit) in
        (
          String.◌∷◌ c (digits_of s),
          (
            (point, (starts-digits_of s digit, (digits-split s).1)),
            ap (String.◌∷◌ c) ((digits-split s).0 ∙ ap (λ u. concat (digits_of s) u) rest),
          ),
        )
  ]
]

-- Characters.
space_plain : (c : ℕ) → is_space c ≡ true → (is_digit c ≡ false) × (eqb c 46 ≡ false)
space_plain c e = (ground arith, ground arith)

-- Neither a digit nor a point comes first.
abbrev plain : String → Bool
plain String.[] = true
plain (String.◌∷◌ c s) = not (is_digit (code c)) && not (eqb (code c) 46)

unit_first :
    (c : ℕ)
    → (is_letter 115 c
        || is_letter 109 c
        || is_letter 104 c
        || is_letter 100 c
        || is_letter 119 c
        || is_letter 121 c)
      ≡ true
    → (is_digit c ≡ false) × ((eqb c 46 ≡ false) × (is_space c ≡ false))
unit_first c e = (ground arith, (ground arith, ground arith))

space_full :
    (c : ℕ) (d : ℕ)
    → (is_letter 109 c && is_letter 115 d) ≡ true
    → (is_digit c ≡ false) × ((eqb c 46 ≡ false) × (is_space c ≡ false))
space_full c d e = (ground arith, (ground arith, ground arith))

unit-plain : (u : String) → is_unit u ≡ true → plain u ≡ true
unit-plain String.[] e = refl
unit-plain (String.◌∷◌ c String.[]) e = let (a, (b, _)) = unit_first (code c) e in rw (a, b) refl
unit-plain (String.◌∷◌ c (String.◌∷◌ d String.[])) e =
    let (a, (b, _)) = space_full (code c) (code d) e in rw (a, b) refl
unit-plain (String.◌∷◌ c (String.◌∷◌ d (String.◌∷◌ x s))) e = absurd (ground (arith, e))

trim_start-unit : (u : String) → is_unit u ≡ true → trim_start u ≡ u
unfolding trim_start
trim_start-unit String.[] e = refl
trim_start-unit (String.◌∷◌ c String.[]) e = let (_, (_, a)) = unit_first (code c) e in rw a refl
trim_start-unit (String.◌∷◌ c (String.◌∷◌ d String.[])) e =
    let (_, (_, a)) = space_full (code c) (code d) e in rw a refl
trim_start-unit (String.◌∷◌ c (String.◌∷◌ d (String.◌∷◌ x s))) e = absurd (ground (arith, e))

trim_start-spaces :
    (spaces unit : String)
    → AllChars is_space spaces
    → is_unit unit ≡ true
    → (trim_start (concat spaces unit) ≡ unit) × (plain (concat spaces unit) ≡ true)
unfolding trim_start
trim_start-spaces String.[] unit h e = (trim_start-unit unit e, unit-plain unit e)
trim_start-spaces (String.◌∷◌ c s) unit (h, hs) e =
    let (a, b) = space_plain (code c) h in (rw h (trim_start-spaces s unit hs e).0, rw (a, b) refl)

plain-digit : (s : String) → plain s ≡ true → starts_digit s ≡ false
plain-digit String.[] e = refl
plain-digit (String.◌∷◌ c s) e = ground (arith, e)

after_fraction-plain : (s : String) → plain s ≡ true → after_fraction s ≡ some s
unfolding after_fraction
after_fraction-plain String.[] e = refl
after_fraction-plain (String.◌∷◌ c s) e = ground (arith, e)

skip_digits-all :
    (ds s : String) → AllChars is_digit ds → starts_digit s ≡ false → skip_digits (concat ds s) ≡ s
unfolding skip_digits
skip_digits-all String.[] String.[] h e = refl
skip_digits-all String.[] (String.◌∷◌ c s) h e = rw e refl
skip_digits-all (String.◌∷◌ c ds) s (h, hs) e = rw h (skip_digits-all ds s hs e)

starts-concat : (ds s : String) → starts_digit ds ≡ true → starts_digit (concat ds s) ≡ true
starts-concat String.[] s e = absurd (ground (arith, e))
starts-concat (String.◌∷◌ c ds) s e = e

fraction-rest :
    (fraction t : String)
    → IsFraction fraction
    → plain t ≡ true
    → (after_fraction (concat fraction t) ≡ some t) × (starts_digit (concat fraction t) ≡ false)
unfolding after_fraction
fraction-rest String.[] t h e = (after_fraction-plain t e, plain-digit t e)
fraction-rest (String.◌∷◌ c f) t (h, (first, digits)) e = (
  rw (h, starts-concat f t first, skip_digits-all f t digits (plain-digit t e)) refl,
  ground (arith, h),
)

ends-some :
    (o : Option String)
    → ends_in_unit o ≡ true
    → (t : String) × ((o ≡ some t) × (is_unit (trim_start t) ≡ true))
ends-some none e = absurd (ground (arith, e))
ends-some (some t) e = (t, (refl, e))

-- The pattern of JWT_EXPIRES_IN accepts exactly a number that may have a fraction, then any number of
-- spaces, then nothing or one of the units ms, s, m, h, d, w and y in either case.
pub is_duration_lem : (s : String) → (is_duration s ≡ true) ↔ IsDuration s
unfolding is_duration
is_duration_lem s = (sound, complete)
  where
    sound : is_duration s ≡ true → IsDuration s
    sound e =
        let first : starts_digit s ≡ true = ground (arith, e) in
        let (t, (rest, unit)) = ends-some (after_fraction (skip_digits s)) (ground (arith, e)) in
        let (fraction, (is_fraction, left)) = after_fraction-split (skip_digits s) t rest in
        (
          digits_of s,
          (
            fraction,
            (
              spaces_of t,
              (
                trim_start t,
                (
                  (starts-digits_of s first, (digits-split s).1),
                  is_fraction,
                  (spaces-split t).1,
                  unit,
                  (digits-split s).0
                      ∙ ap (λ u. concat (digits_of s) u)
                          (left ∙ ap (λ u. concat fraction u) (spaces-split t).0),
                ),
              ),
            ),
          ),
        )

    complete : IsDuration s → is_duration s ≡ true
    complete
          (number, (fraction, (spaces, (unit, ((first, digits), is_fraction, blank, u, same))))) =
        let t = concat spaces unit in
        let (trimmed, is_plain) = trim_start-spaces spaces unit blank u in
        let (rest, no_digit) = fraction-rest fraction t is_fraction is_plain in
        rw
          (
            same,
            starts-concat number (concat fraction t) first,
            skip_digits-all number (concat fraction t) digits no_digit,
            rest,
            trimmed,
          )
          u
