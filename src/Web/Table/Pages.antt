-- ===== src/Web/Table/Pages.antt =====
-- The pages of the table.
use docksight.Base.{
  ℕ, zero, suc, ◌+◌, ◌-◌, ◌*◌, ◌≤◌, min, ◌≡◌, refl, ap, sym, ◌∙◌, List, [], ◌++◌, length, take,
  drop, take-more, take-all, take-min, drop-take, length-take, length-drop, arith,
}
use docksight.Web.Table.{page_count, current_page, visible, first_shown, last_shown}

module _ {ℓ} {A : Type ℓ} where
  length-visible :
      (page : ℕ) (rows : List A)
      → 1 ≤ page
      → length (visible page rows)
        ≡ min 10 (length rows - (current_page page (length rows) - 1) * 10)
  unfolding visible
  length-visible page rows h =
      let k = current_page page (length rows) in
      let p = length-take (k * 10 - (k - 1) * 10) (drop ((k - 1) * 10) rows) in
      let q = length-drop ((k - 1) * 10) rows in p ∙ (omega arith)

  visible-told :
      (page : ℕ) (rows : List A)
      → let total = length rows in
        let current = current_page page total in
        visible page rows
        ≡ drop (first_shown current total 10 - 1) (take (last_shown current total 10) rows)
  unfolding visible
  visible-told page xs =
      let k = current_page page (length xs) in
      let first : first_shown k (length xs) 10 - 1 ≡ (k - 1) * 10 = ground arith in
      sym (
        ap (λ x. drop (first_shown k (length xs) 10 - 1) x)
          (take-min (k * 10) (last_shown k (length xs) 10) xs refl)
        ∙ ap (λ i. drop i (take (k * 10) xs)) first
        ∙ drop-take ((k - 1) * 10) (k * 10) xs)

  -- Whatever page from 1 on is asked for, also one that is no longer there, the table shows at most ten rows, and
  -- at least one where there is a row; and the rows shown are just those from the first to the last that the bar
  -- below tells, counted from 1; for no row it tells 0 and 0.
  pub visible_bounds :
      (page : ℕ) (rows : List A)
      → 1 ≤ page
      → let total = length rows in
        let first = first_shown (current_page page total) total 10 in
        let last = last_shown (current_page page total) total 10 in
        (length (visible page rows) ≤ 10)
        × (min 1 total ≤ length (visible page rows))
        × (visible page rows ≡ drop (first - 1) (take last rows))
        × (1 ≤ total → (1 ≤ first) × (last ≡ first - 1 + length (visible page rows)))
        × (total ≡ 0 → (first ≡ 0) × (last ≡ 0))
  visible_bounds page rows h =
      let p = length-visible page rows h in
      (
        omega arith,
        omega arith,
        visible-told page rows,
        λ some_row. (ground arith, ground arith),
        λ no_row. (ground arith, ground arith),
      )

  -- The rows of the pages from 1 to `n`.
  abbrev pub pages_to : ℕ → List A → List A
  pages_to zero rows = []
  pages_to (suc n) rows = pages_to n rows ++ visible (suc n) rows

  pages_to-take :
      (n : ℕ) (rows : List A) → n ≤ page_count (length rows) → pages_to n rows ≡ take (n * 10) rows
  unfolding visible
  pages_to-take zero rows h = refl
  pages_to-take (suc n) rows h =
      let k = current_page (suc n) (length rows) in
      let d : (k - 1) * 10 ≡ n * 10 = omega arith in
      let m : k * 10 - (k - 1) * 10 ≡ 10 = omega arith in
      ap (pages_to n rows ++◌)
        (ap (λ i. take i (drop ((k - 1) * 10) rows)) m ∙ ap (λ i. take 10 (drop i rows)) d)
      ∙ ap (◌++ take 10 (drop (n * 10) rows)) (pages_to-take n rows (omega arith))
      ∙ take-more (n * 10) 10 (suc n * 10) rows (omega arith)

  -- The pages of the table, one after the other, are all its rows in their order.
  pub pages_to-page_count : (rows : List A) → pages_to (page_count (length rows)) rows ≡ rows
  pages_to-page_count rows =
      pages_to-take (page_count (length rows)) rows (omega arith)
      ∙ take-all (page_count (length rows) * 10) rows (omega arith)
