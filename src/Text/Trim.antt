-- ===== src/Text/Trim.antt =====
-- Trimming a text again changes nothing.
use docksight.Base.{
  String, ◌≡◌, refl, ap, ◌∙◌, Bool, true, not, ◌&&◌, inl, inr, ◌==◌, Bool-cases, arith,
}
use docksight.Text.{code, is_space, trim_start, trim_end, trim}

-- The text does not start with a space.
abbrev starts_full : String → Bool
starts_full String.[] = true
starts_full (String.◌∷◌ c s) = not (is_space (code c))

trim_start-full : (s : String) → starts_full (trim_start s) ≡ true
unfolding trim_start
trim_start-full String.[] = refl
trim_start-full (String.◌∷◌ c s) = elim (Bool-cases (is_space (code c))) [
  | inl e ↦ rw e (trim_start-full s)
  | inr e ↦ rw e (ap not e)
]

full-trim_start : (s : String) → starts_full s ≡ true → trim_start s ≡ s
unfolding trim_start
full-trim_start String.[] h = refl
full-trim_start (String.◌∷◌ c s) h = elim (Bool-cases (is_space (code c))) [
  | inl e ↦ ground (arith, h)
  | inr e ↦ rw e refl
]

trim_end-trim_end : (s : String) → trim_end (trim_end s) ≡ trim_end s
unfolding trim_end
trim_end-trim_end String.[] = refl
trim_end-trim_end (String.◌∷◌ c s) = elim (Bool-cases (trim_end s == "" && is_space (code c))) [
  | inl e ↦ rw e refl
  | inr e ↦ rw e (rw (trim_end-trim_end s) (rw e refl))
]

trim_end-full : (s : String) → starts_full s ≡ true → starts_full (trim_end s) ≡ true
unfolding trim_end
trim_end-full String.[] h = refl
trim_end-full (String.◌∷◌ c s) h = elim (Bool-cases (trim_end s == "" && is_space (code c))) [
  | inl e ↦ rw e refl
  | inr e ↦ rw e h
]

pub trim-trim : (s : String) → trim (trim s) ≡ trim s
unfolding trim
trim-trim s =
    ap trim_end
      (full-trim_start (trim_end (trim_start s)) (trim_end-full (trim_start s) (trim_start-full s)))
    ∙ trim_end-trim_end (trim_start s)
