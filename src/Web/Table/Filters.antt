-- ===== src/Web/Table/Filters.antt =====
-- The counts beside the filters of the table.
use docksight.Base.{
  ℕ, suc, ◌+◌, String, ◌≡◌, refl, sym, ap, subst, ◌∙◌, Bool, true, false, inl, inr, List, [], ◌∷◌,
  ◌==◌, length, Bool-cases, eq_iff, arith,
}
use docksight.Text.{trim}
use docksight.Web.Commands.{ContainerRow}
use docksight.Web.Table.{
  StatusFilter, all, running, exited, paused, restarting, Tally, no_tally, filter_text, count_state,
  counts, state_of, in_filter, is_shown, keep_shown, filtered, filter_count,
}

abbrev tally_of : StatusFilter → Tally → ℕ
tally_of all t = 0
tally_of running t = t.running
tally_of exited t = t.exited
tally_of paused t = t.paused
tally_of restarting t = t.restarting

abbrev one_if : Bool → ℕ
one_if true = 1
one_if false = 0

abbrev is_state : StatusFilter → Bool
is_state all = false
is_state running = true
is_state exited = true
is_state paused = true
is_state restarting = true

-- What a count becomes by one more row in this state.
abbrev Adds : StatusFilter → Tally → String → Type 0
Adds f t state = tally_of f (count_state state t) ≡ tally_of f t + one_if (state == filter_text f)

running-Adds : (f : StatusFilter) (t : Tally) → is_state f ≡ true → Adds f t "running"
unfolding count_state
running-Adds all t h = ground arith
running-Adds running t h = ground arith
running-Adds exited t h = ground arith
running-Adds paused t h = ground arith
running-Adds restarting t h = ground arith

exited-Adds : (f : StatusFilter) (t : Tally) → is_state f ≡ true → Adds f t "exited"
unfolding count_state
exited-Adds all t h = ground arith
exited-Adds running t h = ground arith
exited-Adds exited t h = ground arith
exited-Adds paused t h = ground arith
exited-Adds restarting t h = ground arith

paused-Adds : (f : StatusFilter) (t : Tally) → is_state f ≡ true → Adds f t "paused"
unfolding count_state
paused-Adds all t h = ground arith
paused-Adds running t h = ground arith
paused-Adds exited t h = ground arith
paused-Adds paused t h = ground arith
paused-Adds restarting t h = ground arith

restarting-Adds : (f : StatusFilter) (t : Tally) → is_state f ≡ true → Adds f t "restarting"
unfolding count_state
restarting-Adds all t h = ground arith
restarting-Adds running t h = ground arith
restarting-Adds exited t h = ground arith
restarting-Adds paused t h = ground arith
restarting-Adds restarting t h = ground arith

other-Adds :
    (f : StatusFilter) (state : String) (t : Tally)
    → is_state f ≡ true
    → (state == "running") ≡ false
    → (state == "exited") ≡ false
    → (state == "paused") ≡ false
    → (state == "restarting") ≡ false
    → Adds f t state
unfolding count_state
other-Adds all state t h p q r s = ground arith
other-Adds running state t h p q r s = rw (p, q, r, s) (omega arith)
other-Adds exited state t h p q r s = rw (p, q, r, s) (omega arith)
other-Adds paused state t h p q r s = rw (p, q, r, s) (omega arith)
other-Adds restarting state t h p q r s = rw (p, q, r, s) (omega arith)

count_state-Adds :
    (f : StatusFilter) (state : String) (t : Tally) → is_state f ≡ true → Adds f t state
count_state-Adds f state t h =
    let at : (w : String) → (state == w) ≡ true → Adds f t w → Adds f t state =
      λ w e p. subst (Adds f t) (sym ((eq_iff state w).0 e)) p in
    elim (Bool-cases (state == "running")) [
      | inl e ↦ at "running" e (running-Adds f t h)
      | inr p ↦ elim (Bool-cases (state == "exited")) [
        | inl e ↦ at "exited" e (exited-Adds f t h)
        | inr q ↦ elim (Bool-cases (state == "paused")) [
          | inl e ↦ at "paused" e (paused-Adds f t h)
          | inr r ↦ elim (Bool-cases (state == "restarting")) [
            | inl e ↦ at "restarting" e (restarting-Adds f t h)
            | inr s ↦ other-Adds f state t h p q r s
          ]
        ]
      ]
    ]

in_filter-state :
    (f : StatusFilter) (state : String)
    → is_state f ≡ true
    → in_filter f state ≡ (state == filter_text f)
in_filter-state all state h = ground arith
in_filter-state running state h = refl
in_filter-state exited state h = refl
in_filter-state paused state h = refl
in_filter-state restarting state h = refl

module _ (lower : String → String) {Num : Type 0} where
  -- With no query, the filter alone decides.
  is_shown-filter :
      (f : StatusFilter) (row : ContainerRow Num)
      → is_shown lower f "" row ≡ in_filter f (state_of lower row)
  is_shown-filter f row = ground arith

  counts-keep_shown :
      (f : StatusFilter) (rows : List (ContainerRow Num)) (t : Tally)
      → is_state f ≡ true
      → tally_of f (counts lower rows t) ≡ tally_of f t + length (keep_shown lower f "" rows)
  unfolding counts
  counts-keep_shown f [] t h = omega arith
  counts-keep_shown f (row ∷ rows) t h =
      let state = state_of lower row in
      let p = counts-keep_shown f rows (count_state state t) h in
      let q = count_state-Adds f state t h in
      let r = is_shown-filter f row ∙ in_filter-state f state h in
      elim (Bool-cases (state == filter_text f)) [
        | inl e ↦
            let d = r ∙ e in let k = q ∙ ap (λ b. tally_of f t + one_if b) e in rw d (omega arith)
        | inr e ↦
            let d = r ∙ e in let k = q ∙ ap (λ b. tally_of f t + one_if b) e in rw d (omega arith)
      ]

  keep_shown-all :
      (rows : List (ContainerRow Num)) → length (keep_shown lower all "" rows) ≡ length rows
  keep_shown-all [] = refl
  keep_shown-all (row ∷ rows) = ap suc (keep_shown-all rows)

  no_query :
      (f : StatusFilter) (rows : List (ContainerRow Num))
      → lower "" ≡ ""
      → filtered lower f "" rows ≡ keep_shown lower f "" rows
  unfolding filtered trim
  no_query f rows h = ap (λ v. keep_shown lower f v rows) h

  -- The count that the table shows beside a filter is the number of rows that it shows under that filter
  -- with an empty query.
  pub filter_count-filtered :
      (f : StatusFilter) (rows : List (ContainerRow Num))
      → lower "" ≡ ""
      → filter_count lower f rows ≡ length (filtered lower f "" rows)
  filter_count-filtered all rows h = sym (ap length (no_query all rows h) ∙ keep_shown-all rows)
  filter_count-filtered running rows h =
      counts-keep_shown running rows no_tally refl
      ∙ (omega arith)
      ∙ sym (ap length (no_query running rows h))
  filter_count-filtered exited rows h =
      counts-keep_shown exited rows no_tally refl
      ∙ (omega arith)
      ∙ sym (ap length (no_query exited rows h))
  filter_count-filtered paused rows h =
      counts-keep_shown paused rows no_tally refl
      ∙ (omega arith)
      ∙ sym (ap length (no_query paused rows h))
  filter_count-filtered restarting rows h =
      counts-keep_shown restarting rows no_tally refl
      ∙ (omega arith)
      ∙ sym (ap length (no_query restarting rows h))
