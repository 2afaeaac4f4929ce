-- ===== src/Web/Selection/Settled.antt =====
-- The effects end with an entry that is there.
use docksight.Base.{
  String, true, false, ◌≡◌, refl, List, [], ◌∷◌, Option, some, or_else, is_some, ◌==◌, subst, All,
  eq_refl, eq_iff, Bool-cases, Option-cases, inl, inr, arith,
}
use docksight.Web.Selection.{
  Entry, find_entry, find_running, is_selected, select_first, select_running,
}

find_running-found :
    (entries : List Entry) (e : Entry)
    → find_running entries ≡ some e
    → (is_some (find_entry (some e.id) entries) ≡ true) × (e.running ≡ true)
unfolding find_running find_entry
find_running-found [] e h = absurd (ground (arith, h))
find_running-found (f ∷ entries) e h = elim (Bool-cases f.running) [
  | inl r ↦
      let same : f ≡ e = ground (arith, h, r) in
      subst (λ g. (is_some (find_entry (some g.id) (f ∷ entries)) ≡ true) × (g.running ≡ true)) same
        (rw (eq_refl f.id) refl, r)
  | inr r ↦
      let (found, running) = find_running-found entries e (ground (arith, h, r)) in
      (ground (arith, found), running)
]

selected_some :
    (entries : List Entry) (i : String)
    → (i == "") ≡ false
    → is_some (find_entry (some i) entries) ≡ true
    → is_selected (some i) entries ≡ true
selected_some entries i e f = rw (e, f) refl

find_entry-All :
    (entries : List Entry) (i : String)
    → All (λ e. (e.id == "") ≡ false) entries
    → is_some (find_entry (some i) entries) ≡ true
    → (i == "") ≡ false
unfolding find_entry
find_entry-All [] i h e = absurd (ground (arith, e))
find_entry-All (f ∷ entries) i (h, hs) e = elim (Bool-cases (f.id == i)) [
  | inl same ↦ subst (λ k. (k == "") ≡ false) ((eq_iff f.id i).0 same) h
  | inr differs ↦ find_entry-All entries i hs (ground (arith, e, differs))
]

-- With entries in the list, none of which has an empty id, the effect of the metrics ends with one that
-- is in the list, keeps a selection that is still there, and changes nothing when it runs again.
pub select_first_lem :
    (e : Entry) (entries : List Entry) (id : Option String)
    → All (λ e. (e.id == "") ≡ false) (e ∷ entries)
    → let chosen = select_first (e ∷ entries) id in
      (is_selected chosen (e ∷ entries) ≡ true)
      × (is_selected id (e ∷ entries) ≡ true → chosen ≡ id)
      × (select_first (e ∷ entries) chosen ≡ chosen)
unfolding select_first
select_first_lem e entries id (h, hs) =
    let there : is_selected (some e.id) (e ∷ entries) ≡ true =
      unfold find_entry in selected_some (e ∷ entries) e.id h (rw (eq_refl e.id) refl) in
    elim (Bool-cases (is_selected id (e ∷ entries))) [
      | inl s ↦ rw s (s, λ t. refl, rw s refl)
      | inr s ↦ rw s (there, λ t. absurd (ground (arith, s, t)), rw there refl)
    ]

chosen_there :
    (e : Entry) (entries : List Entry)
    → All (λ e. (e.id == "") ≡ false) (e ∷ entries)
    → is_selected (some ((or_else (find_running (e ∷ entries)) e).id)) (e ∷ entries) ≡ true
chosen_there e entries (h, hs) = elim (Option-cases (find_running (e ∷ entries))) [
  | inl n ↦ rw n (unfold find_entry in selected_some (e ∷ entries) e.id h (rw (eq_refl e.id) refl))
  | inr (r, n) ↦
      let found = (find_running-found (e ∷ entries) r n).0 in
      rw n
        (selected_some (e ∷ entries) r.id (find_entry-All (e ∷ entries) r.id (h, hs) found) found)
]

-- The same of the effect of the logs, which chooses a running container where the selection has gone
-- and a container runs.
pub select_running_lem :
    (e : Entry) (entries : List Entry) (id : Option String)
    → All (λ e. (e.id == "") ≡ false) (e ∷ entries)
    → let chosen = select_running (e ∷ entries) id in
      (is_selected chosen (e ∷ entries) ≡ true)
      × (is_selected id (e ∷ entries) ≡ true → chosen ≡ id)
      × (select_running (e ∷ entries) chosen ≡ chosen)
      × ((r : Entry)
          → is_selected id (e ∷ entries) ≡ false
          → find_running (e ∷ entries) ≡ some r
          → (chosen ≡ some r.id) × (r.running ≡ true))
unfolding select_running
select_running_lem e entries id h = elim (Bool-cases (is_selected id (e ∷ entries))) [
  | inl s ↦ rw s (s, λ t. refl, rw s refl, λ r gone. absurd (ground (arith, s, gone)))
  | inr s ↦
      let there = chosen_there e entries h in
      rw s (
        there,
        λ t. absurd (ground (arith, s, t)),
        rw there refl,
        λ r gone found. (rw found refl, (find_running-found (e ∷ entries) r found).1),
      )
]
