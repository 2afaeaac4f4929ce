-- ===== src/Web/Environment/Hidden.antt =====
-- What can be seen of an environment variable.
use docksight.Base.{String, true, false, ◌≡◌, refl, ap, some, eqb, inl, inr, Bool-cases}
use docksight.Text.{code, concat}
use docksight.Web.Environment.{hide_value, entry_key, entry_value, shown_value, copied_value}

-- A text without the character `=`.
abbrev pub NoEquals : String → Type 0
NoEquals String.[] = Unit
NoEquals (String.◌∷◌ c s) = (eqb (code c) 61 ≡ false) × NoEquals s

abbrev pub entry_of : String → String → String
entry_of key value = concat key (concat "=" value)

entry_key-entry_of : (key value : String) → NoEquals key → entry_key (entry_of key value) ≡ key
unfolding entry_key
entry_key-entry_of String.[] value h = refl
entry_key-entry_of (String.◌∷◌ c key) value (e, h) =
    rw e (ap (String.◌∷◌ c) (entry_key-entry_of key value h))

entry_value-entry_of :
    (key value : String) → NoEquals key → entry_value (entry_of key value) ≡ some (entry_key value)
unfolding entry_value
entry_value-entry_of String.[] value h = refl
entry_value-entry_of (String.◌∷◌ c key) value (e, h) = rw e (entry_value-entry_of key value h)

entry_key-NoEquals : (s : String) → NoEquals s → entry_key s ≡ s
unfolding entry_key
entry_key-NoEquals String.[] h = refl
entry_key-NoEquals (String.◌∷◌ c s) (e, h) = rw e (ap (String.◌∷◌ c) (entry_key-NoEquals s h))

-- Of variables whose names have no `=`: the row of one whose name is sensitive tells nothing of its value until the values are
-- revealed, and the row of any other variable, or with the values revealed, shows a value that has no
-- `=` in it as it is.
pub shown_value_lem :
    (lower : String → String) (key value other : String)
    → NoEquals key
    → (hide_value lower key ≡ true
        → shown_value lower false (entry_of key value)
          ≡ shown_value lower false (entry_of key other))
      × (hide_value lower key ≡ false
          → NoEquals value
          → shown_value lower false (entry_of key value) ≡ value)
      × (NoEquals value → shown_value lower true (entry_of key value) ≡ value)
      × (NoEquals value → copied_value (entry_of key value) ≡ entry_of key value)
unfolding shown_value copied_value
shown_value_lem lower key value other h =
    let k = entry_key-entry_of key value h in
    let l = entry_key-entry_of key other h in
    let v = entry_value-entry_of key value h in
    (
      λ e. rw (k, l, e) refl,
      λ e w. rw (k, e, v) (entry_key-NoEquals value w),
      λ w. elim (Bool-cases (hide_value lower key)) [
        | inl e ↦ rw (k, e, v) (entry_key-NoEquals value w)
        | inr e ↦ rw (k, e, v) (entry_key-NoEquals value w)
      ],
      λ w. rw (k, v) (rw (entry_key-NoEquals value w) refl),
    )

-- Of a value with a `=` in it, under a name without one, only what stands before the first one is shown, also where the values
-- are revealed, and only that is copied.
pub shown_value_cut :
    (lower : String → String) (key start rest : String)
    → NoEquals key
    → NoEquals start
    → (shown_value lower true (entry_of key (entry_of start rest)) ≡ start)
      × (copied_value (entry_of key (entry_of start rest)) ≡ entry_of key start)
unfolding shown_value copied_value
shown_value_cut lower key start rest h g =
    let k = entry_key-entry_of key (entry_of start rest) h in
    let v = entry_value-entry_of key (entry_of start rest) h in
    let w = entry_key-entry_of start rest g in
    elim (Bool-cases (hide_value lower key)) [
      | inl e ↦ (rw (k, e, v) w, rw (k, v) (rw w refl))
      | inr e ↦ (rw (k, e, v) w, rw (k, v) (rw w refl))
    ]
