-- ===== src/Web/Table/Bar.antt =====
-- The page buttons below the table.
use docksight.Base.{
  ℕ, zero, suc, ◌+◌, ◌-◌, ◌≤◌, ◌<◌, min, max, ◌≡◌, refl, ap, Bool, true, false, ◌≢◌, ◌&&◌, ◌||◌,
  inl, inr, ◌⊎◌, List, [], ◌∷◌, ◌++◌, length, length-append, leb, ltb, eqb, Bool-cases, arith,
}
use docksight.Web.Table.{PageEntry, number, gap, numbers_from, gap_if, build_pages}

-- The number is a button of the bar.
abbrev pub has_button : ℕ → List PageEntry → Bool
has_button n [] = false
has_button n (gap ∷ es) = has_button n es
has_button n (number m ∷ es) = eqb n m || has_button n es

-- Every number of the bar is one of a page.
abbrev pub in_range : ℕ → List PageEntry → Bool
in_range count [] = true
in_range count (gap ∷ es) = in_range count es
in_range count (number m ∷ es) = leb 1 m && leb m count && in_range count es

has_button-append :
    (n : ℕ) (xs ys : List PageEntry)
    → has_button n (xs ++ ys) ≡ (has_button n xs || has_button n ys)
has_button-append n [] ys = refl
has_button-append n (gap ∷ xs) ys = has_button-append n xs ys
has_button-append n (number m ∷ xs) ys = ground (arith, has_button-append n xs ys)

in_range-append :
    (n : ℕ) (xs ys : List PageEntry) → in_range n (xs ++ ys) ≡ (in_range n xs && in_range n ys)
in_range-append n [] ys = refl
in_range-append n (gap ∷ xs) ys = in_range-append n xs ys
in_range-append n (number m ∷ xs) ys = ground (arith, in_range-append n xs ys)

numbers_from-has : (v n k : ℕ) → v ≤ k → k < v + n → has_button k (numbers_from v n) ≡ true
numbers_from-has v zero k h l = ground arith
numbers_from-has v (suc n) k h l = elim (Bool-cases (eqb k v)) [
  | inl e ↦ rw e refl
  | inr e ↦ rw e (numbers_from-has (suc v) n k (ground arith) (omega arith))
]

numbers_from-range :
    (v n count : ℕ) → 1 ≤ v → v + n ≤ suc count → in_range count (numbers_from v n) ≡ true
numbers_from-range v zero count h l = refl
numbers_from-range v (suc n) count h l =
    let p = numbers_from-range (suc v) n count (omega arith) (omega arith) in
    let q : leb 1 v ≡ true = ground arith in
    let r : leb v count ≡ true = ground arith in rw (q, r) p

length-numbers_from : (v n : ℕ) → length (numbers_from v n) ≡ n
length-numbers_from v zero = refl
length-numbers_from v (suc n) = ap suc (length-numbers_from (suc v) n)

gap_if-range : (b : Bool) (count : ℕ) → in_range count (gap_if b) ≡ true
gap_if-range true count = refl
gap_if-range false count = refl

length-gap_if : (b : Bool) → length (gap_if b) ≤ 1
length-gap_if true = ground arith
length-gap_if false = ground arith

abbrev pub IsBar : (page count : ℕ) → List PageEntry → Type 0
IsBar page count es =
    (length es ≤ 7)
    × ((in_range count es ≡ true)
        × ((has_button page es ≡ true) × ((has_button 1 es ≡ true) × (has_button count es ≡ true))))

short-IsBar :
    (page count : ℕ) → 1 ≤ page → page ≤ count → count ≤ 7 → IsBar page count (numbers_from 1 count)
short-IsBar page count h l k = (
  ground (arith, length-numbers_from 1 count),
  (
    numbers_from-range 1 count count (omega arith) (omega arith),
    (
      numbers_from-has 1 count page h (omega arith),
      (
        numbers_from-has 1 count 1 (omega arith) (omega arith),
        numbers_from-has 1 count count (omega arith) (omega arith),
      ),
    ),
  ),
)

-- The entries of a long bar.
abbrev long_bar : (a b : Bool) (start n count : ℕ) → List PageEntry
long_bar a b start n count =
    (number 1 ∷ []) ++ gap_if a ++ numbers_from start n ++ gap_if b ++ (number count ∷ [])

length-long_bar : (a b : Bool) (start n count : ℕ) → n ≤ 3 → length (long_bar a b start n count) ≤ 7
length-long_bar a b start n count h =
    let low = (number 1 ∷ []) ++ gap_if a in
    let mid = numbers_from start n in
    ground (
      arith,
      length-append (low ++ mid ++ gap_if b) (number count ∷ []),
      length-append (low ++ mid) (gap_if b),
      length-append low mid,
      length-append (number 1 ∷ []) (gap_if a),
      length-numbers_from start n,
      length-gap_if a,
      length-gap_if b,
    )

long_bar-range :
    (a b : Bool) (start n count : ℕ)
    → 1 ≤ start
    → 1 ≤ count
    → start + n ≤ suc count
    → in_range count (long_bar a b start n count) ≡ true
long_bar-range a b start n count h k l =
    let low = (number 1 ∷ []) ++ gap_if a in
    let mid = numbers_from start n in
    ground (
      arith,
      in_range-append count (low ++ mid ++ gap_if b) (number count ∷ []),
      in_range-append count (low ++ mid) (gap_if b),
      in_range-append count low mid,
      in_range-append count (number 1 ∷ []) (gap_if a),
      gap_if-range a count,
      gap_if-range b count,
      numbers_from-range start n count,
    )

long_bar-has :
    (a b : Bool) (start n count k : ℕ)
    → (k ≡ 1) ⊎ ((k ≡ count) ⊎ ((start ≤ k) × (k < start + n)))
    → has_button k (long_bar a b start n count) ≡ true
long_bar-has a b start n count k c =
    let low = (number 1 ∷ []) ++ gap_if a in
    let mid = numbers_from start n in
    let p = has_button-append k (low ++ mid ++ gap_if b) (number count ∷ []) in
    let q = has_button-append k (low ++ mid) (gap_if b) in
    let r = has_button-append k low mid in
    let t = has_button-append k (number 1 ∷ []) (gap_if a) in
    elim c [
      | inl e ↦ ground (arith, e, p, q, r, t)
      | inr (inl e) ↦ ground (arith, e, p, q, r, t)
      | inr (inr (f, g)) ↦ ground (arith, p, q, r, t, numbers_from-has start n k f g)
    ]

-- On a long bar, the numbers in the middle have the page, unless it is the first or the last.
middle-page :
    (page count : ℕ)
    → 1 ≤ page
    → page ≤ count
    → 7 < count
    → let start = max 2 (page - 1) in
      let n = suc (min (count - 1) (page + 1)) - start in
      (page ≡ 1) ⊎ ((page ≡ count) ⊎ ((start ≤ page) × (page < start + n)))
middle-page page count h l k = elim (Bool-cases (eqb page 1)) [
  | inl e ↦ inl (ground arith)
  | inr e ↦ elim (Bool-cases (eqb page count)) [
    | inl f ↦ inr (inl (ground arith))
    | inr f ↦
        let g : page ≢ 1 = ground arith in
        let i : page ≢ count = ground arith in inr (inr (omega arith, omega arith))
  ]
]

-- The bar of a table with pages from 1 to `count` on one of these pages: it has no more than seven entries, its
-- numbers are those of pages, and it has a button for the page itself, for the first and for the last.
pub build_pages_bounds :
    (page count : ℕ) → 1 ≤ page → page ≤ count → IsBar page count (build_pages page count)
unfolding build_pages
build_pages_bounds page count h l =
    let start = max 2 (page - 1) in
    let end = min (count - 1) (page + 1) in
    elim (Bool-cases (leb count 7)) [
      | inl e ↦ rw e (short-IsBar page count h l (ground arith))
      | inr e ↦ rw e (
          let k : 7 < count = ground arith in
          let n = suc end - start in
          let a = ltb 2 start in
          let b = ltb end (count - 1) in
          (
            length-long_bar a b start n count (omega arith),
            (
              long_bar-range a b start n count (omega arith) (omega arith) (omega arith),
              (
                long_bar-has a b start n count page (middle-page page count h l k),
                (
                  long_bar-has a b start n count 1 (inl refl),
                  long_bar-has a b start n count count (inr (inl refl)),
                ),
              ),
            ),
          ))
    ]
