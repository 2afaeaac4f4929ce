-- ===== src/Base/Slices.antt =====
-- Slices of lists, measured by native numbers: `xs.slice(n)` and `xs.slice(-n)`.
use Prim.Native.Nat.{ℕ, zero, suc, ◌+◌, ◌-◌, ◌≤◌, min}
use mathlib.Core.Path.{◌≡◌, refl, sym, ap, ◌∙◌}
use mathlib.Core.Logic.{inl, inr}
use mathlib.Core.List.{List, [], ◌∷◌, ◌++◌}
use native.Mathlib.Omega.{arith}
use docksight.Base.Tests.{leb, Bool-cases}
use docksight.Base.Lists.{length}

module _ {ℓ} {A : Type ℓ} where
  abbrev pub drop : ℕ → List A → List A
  drop zero xs = xs
  drop (suc n) [] = []
  drop (suc n) (x ∷ xs) = drop n xs

  -- `xs.slice(-n)`, of a positive n
  unfoldable pub take_last : ℕ → List A → List A
  take_last n xs = drop (length xs - n) xs

  abbrev pub take : ℕ → List A → List A
  take zero xs = []
  take (suc n) [] = []
  take (suc n) (x ∷ xs) = x ∷ take n xs

  -- `xs.slice(from, to)`
  abbrev pub slice : ℕ → ℕ → List A → List A
  slice from to xs = take (to - from) (drop from xs)

  pub take_last-drop : (n : ℕ) (xs : List A) → take_last n xs ≡ drop (length xs - n) xs
  unfolding take_last
  take_last-drop n xs = refl

  pub append_nil : (xs : List A) → xs ++ [] ≡ xs
  append_nil [] = refl
  append_nil (x ∷ xs) = ap (x ∷◌) (append_nil xs)

  pub append_assoc : (xs ys zs : List A) → (xs ++ ys) ++ zs ≡ xs ++ (ys ++ zs)
  append_assoc [] ys zs = refl
  append_assoc (x ∷ xs) ys zs = ap (x ∷◌) (append_assoc xs ys zs)

  pub length-append : (xs ys : List A) → length (xs ++ ys) ≡ length xs + length ys
  length-append [] ys = ground arith
  length-append (x ∷ xs) ys = ground (arith, length-append xs ys)

  pub length-drop : (n : ℕ) (xs : List A) → length (drop n xs) ≡ length xs - n
  length-drop zero xs = ground arith
  length-drop (suc n) [] = ground arith
  length-drop (suc n) (x ∷ xs) = ground (arith, length-drop n xs)

  -- What is dropped from the first list is dropped from both.
  drop-append :
      (n m k : ℕ) (xs ys : List A)
      → n ≤ length xs
      → k ≡ n + m
      → drop m (drop n xs ++ ys) ≡ drop k (xs ++ ys)
  drop-append zero m k xs ys h e = let p : m ≡ k = omega arith in ap (λ i. drop i (xs ++ ys)) p
  drop-append (suc n) m k [] ys h e = ground arith
  drop-append (suc n) m zero (x ∷ xs) ys h e = ground arith
  drop-append (suc n) m (suc k) (x ∷ xs) ys h e =
      drop-append n m k xs ys (omega arith) (omega arith)

  -- The first list is dropped, and a part of the second.
  drop-over : (m k : ℕ) (xs ys : List A) → k ≡ length xs + m → drop k (xs ++ ys) ≡ drop m ys
  drop-over m k [] ys e = let p : k ≡ m = omega arith in ap (λ i. drop i ys) p
  drop-over m zero (x ∷ xs) ys e = ground arith
  drop-over m (suc k) (x ∷ xs) ys e = drop-over m k xs ys (omega arith)

  pub length-take_last : (n : ℕ) (xs : List A) → length (take_last n xs) ≤ n
  unfolding take_last
  length-take_last n xs = ground (arith, length-drop (length xs - n) xs)

  -- A list that is short enough stays as it is.
  pub take_last-short : (n : ℕ) (xs : List A) → length xs ≤ n → take_last n xs ≡ xs
  unfolding take_last
  take_last-short n xs h = let p : length xs - n ≡ 0 = omega arith in ap (λ k. drop k xs) p

  -- Cutting the first part before the second comes makes no difference.
  pub take_last-before :
      (n : ℕ) (xs ys : List A) → take_last n (take_last n xs ++ ys) ≡ take_last n (xs ++ ys)
  unfolding take_last
  take_last-before n xs ys =
      let k = length xs - n in
      let m = length (drop k xs ++ ys) - n in
      let p : k + m ≡ length (xs ++ ys) - n =
        ground (arith, length-append (drop k xs) ys, length-drop k xs, length-append xs ys) in
      drop-append k m (length (xs ++ ys) - n) xs ys (omega arith) (sym p)

  -- Nor does cutting the second.
  pub take_last-after :
      (n : ℕ) (xs ys : List A) → take_last n (xs ++ take_last n ys) ≡ take_last n (xs ++ ys)
  unfolding take_last
  take_last-after n xs ys =
      let j = length ys - n in
      let ds = drop j ys in
      elim (Bool-cases (leb (length ys) n)) [
        | inl h ↦ ap (λ zs. take_last n (xs ++ zs)) (take_last-short n ys (ground arith))
        | inr h ↦
            let p : length (xs ++ ds) - n ≡ length xs + 0 =
              ground (arith, length-append xs ds, length-drop j ys) in
            let q : length (xs ++ ys) - n ≡ length xs + j = ground (arith, length-append xs ys) in
            drop-over 0 (length (xs ++ ds) - n) xs ds p
            ∙ sym (drop-over j (length (xs ++ ys) - n) xs ys q)
      ]

  pub take-drop : (n : ℕ) (xs : List A) → take n xs ++ drop n xs ≡ xs
  take-drop zero xs = refl
  take-drop (suc n) [] = refl
  take-drop (suc n) (x ∷ xs) = ap (x ∷◌) (take-drop n xs)

  pub length-take : (n : ℕ) (xs : List A) → length (take n xs) ≡ min n (length xs)
  length-take zero xs = ground arith
  length-take (suc n) [] = ground arith
  length-take (suc n) (x ∷ xs) = ground (arith, length-take n xs)

  pub drop-drop : (n m k : ℕ) (xs : List A) → k ≡ n + m → drop m (drop n xs) ≡ drop k xs
  drop-drop zero m k xs e = let p : m ≡ k = omega arith in ap (λ i. drop i xs) p
  drop-drop (suc n) zero zero [] e = refl
  drop-drop (suc n) (suc m) zero [] e = refl
  drop-drop (suc n) zero (suc k) [] e = refl
  drop-drop (suc n) (suc m) (suc k) [] e = refl
  drop-drop (suc n) m zero (x ∷ xs) e = ground arith
  drop-drop (suc n) m (suc k) (x ∷ xs) e = drop-drop n m k xs (omega arith)

  pub drop-all : (n : ℕ) (xs : List A) → length xs ≤ n → drop n xs ≡ []
  drop-all zero [] h = refl
  drop-all zero (x ∷ xs) h = ground arith
  drop-all (suc n) [] h = refl
  drop-all (suc n) (x ∷ xs) h = drop-all n xs (omega arith)

  -- A part and the part that follows it.
  pub take-more :
      (n m k : ℕ) (xs : List A) → k ≡ n + m → take n xs ++ take m (drop n xs) ≡ take k xs
  take-more zero m k xs e = let p : m ≡ k = omega arith in ap (λ i. take i xs) p
  take-more (suc n) zero zero xs e = ground arith
  take-more (suc n) (suc m) zero xs e = ground arith
  take-more (suc n) zero (suc k) [] e = refl
  take-more (suc n) (suc m) (suc k) [] e = refl
  take-more (suc n) m (suc k) (x ∷ xs) e = ap (x ∷◌) (take-more n m k xs (omega arith))

  take_nil : (n : ℕ) → ◌≡◌ {A = List A} (take n []) []
  take_nil zero = refl
  take_nil (suc n) = refl

  pub drop-take : (n k : ℕ) (xs : List A) → drop n (take k xs) ≡ take (k - n) (drop n xs)
  drop-take zero k xs = let p : k ≡ k - 0 = omega arith in ap (λ i. take i xs) p
  drop-take (suc n) zero xs =
      let p : 0 ≡ 0 - suc n = omega arith in ap (λ i. take i (drop (suc n) xs)) p
  drop-take (suc n) (suc k) [] = sym (take_nil (suc k - suc n))
  drop-take (suc n) (suc k) (x ∷ xs) =
      let p : k - n ≡ suc k - suc n = omega arith in
      drop-take n k xs ∙ ap (λ i. take i (drop n xs)) p

  pub take-min : (n k : ℕ) (xs : List A) → k ≡ min n (length xs) → take k xs ≡ take n xs
  take-min n zero [] e = sym (take_nil n)
  take-min zero zero (x ∷ xs) e = refl
  take-min (suc n) zero (x ∷ xs) e = absurd (omega (arith, e))
  take-min n (suc k) [] e = absurd (omega (arith, e))
  take-min zero (suc k) (x ∷ xs) e = absurd (omega (arith, e))
  take-min (suc n) (suc k) (x ∷ xs) e = ap (x ∷◌) (take-min n k xs (omega (arith, e)))

  pub take-all : (n : ℕ) (xs : List A) → length xs ≤ n → take n xs ≡ xs
  take-all zero [] h = refl
  take-all zero (x ∷ xs) h = ground arith
  take-all (suc n) [] h = refl
  take-all (suc n) (x ∷ xs) h = ap (x ∷◌) (take-all n xs (omega arith))
