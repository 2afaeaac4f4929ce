-- ===== src/Dict/Assoc.antt =====
-- Association lists whose keys differ from one another.
use docksight.Base.{
  String, ◌≡◌, refl, ◌≢◌, inl, inr, Bool, false, List, [], ◌∷◌, Option, none, some, arith, ◌==◌,
  eq_iff, eq_refl, if◌then◌else◌, Bool-cases, subst, ◌&&◌, ◌||◌, All,
}

module _ {ℓ} {V : Type ℓ} where
  -- An old key keeps its place, a new one goes to the end.
  unfoldable pub insert : String → V → List (String × V) → List (String × V)
  insert key value [] = (key, value) ∷ []
  insert key value (e ∷ es) = if e.0 == key then (e.0, value) ∷ es else e ∷ insert key value es

  unfoldable pub lookup : String → List (String × V) → Option V
  lookup key [] = none
  lookup key (e ∷ es) = if e.0 == key then some e.1 else lookup key es

  unfoldable pub without : String → List (String × V) → List (String × V)
  without key [] = []
  without key (e ∷ es) = let kept = without key es in if e.0 == key then kept else e ∷ kept

  abbrev pub Absent : String → List (String × V) → Type 0
  Absent k l = All (λ e. e.0 ≢ k) l

  abbrev pub HasUniqueKeys : List (String × V) → Type 0
  HasUniqueKeys [] = Unit
  HasUniqueKeys ((k, v) ∷ l) = Absent k l × HasUniqueKeys l

  pub lookup-without :
      (removed key : String) (es : List (String × V))
      → lookup key (without removed es) ≡ (if removed == key then none else lookup key es)
  unfolding without lookup
  lookup-without removed key (e ∷ es) =
      ground (
        arith,
        eq_iff removed key,
        eq_iff e.0 removed,
        eq_iff e.0 key,
        lookup-without removed key es,
      )
  lookup-without removed key [] = ground arith

  pub lookup-insert :
      (stored key : String) (value : V) (es : List (String × V))
      → lookup key (insert stored value es) ≡ (if stored == key then some value else lookup key es)
  unfolding insert lookup
  lookup-insert stored key value (e ∷ es) = ground (
    arith,
    eq_iff stored key,
    eq_iff e.0 stored,
    eq_iff e.0 key,
    lookup-insert stored key value es,
  )
  lookup-insert stored key value [] = refl

  Absent-insert :
      (k j : String) (v : V) (l : List (String × V)) → j ≢ k → Absent k l → Absent k (insert j v l)
  unfolding insert
  Absent-insert k j v [] n h = (n, tt)
  Absent-insert k j v ((i, w) ∷ l) n (m, h) = ground (arith, Absent-insert k j v l n h)

  Absent-without : (k j : String) (l : List (String × V)) → Absent k l → Absent k (without j l)
  unfolding without
  Absent-without k j [] h = tt
  Absent-without k j ((i, w) ∷ l) (m, h) = ground (arith, Absent-without k j l h)

  pub insert-HasUniqueKeys :
      (k : String) (v : V) (l : List (String × V)) → HasUniqueKeys l → HasUniqueKeys (insert k v l)
  unfolding insert
  insert-HasUniqueKeys k v [] h = (tt, tt)
  insert-HasUniqueKeys k v ((j, w) ∷ l) (a, h) =
      ground
        (arith, eq_iff j k, insert-HasUniqueKeys k v l h, λ (n : k ≢ j). Absent-insert j k v l n a)

  pub without-HasUniqueKeys :
      (k : String) (l : List (String × V)) → HasUniqueKeys l → HasUniqueKeys (without k l)
  unfolding without
  without-HasUniqueKeys k [] h = tt
  without-HasUniqueKeys k ((j, w) ∷ l) (a, h) =
      ground (arith, without-HasUniqueKeys k l h, Absent-without j k l a)

  -- Every entry is found under its key.
  abbrev pub Found : List (String × V) → List (String × V) → Type ℓ
  Found l m = All (λ e. lookup e.0 m ≡ some e.1) l

  Found-cons :
      (k : String) (v : V) (l m : List (String × V)) → Absent k l → Found l m → Found l ((k, v) ∷ m)
  unfolding lookup
  Found-cons k v [] m a f = tt
  Found-cons k v ((j, w) ∷ l) m (n, a) (p, f) = (ground (arith, eq_iff k j), Found-cons k v l m a f)

  pub Found-self : (l : List (String × V)) → HasUniqueKeys l → Found l l
  unfolding lookup
  Found-self [] h = tt
  Found-self ((k, v) ∷ l) (a, h) =
      (ground (arith, eq_refl k), Found-cons k v l l a (Found-self l h))

  -- Whether some entry has the key and a value that passes the test.
  abbrev pub any_at : String → (V → Bool) → List (String × V) → Bool
  any_at k q [] = false
  any_at k q ((j, v) ∷ l) = (j == k && q v) || any_at k q l

  abbrev pub passes : (V → Bool) → Option V → Bool
  passes q none = false
  passes q (some v) = q v

  Absent-any_at :
      (k : String) (q : V → Bool) (l : List (String × V)) → Absent k l → any_at k q l ≡ false
  Absent-any_at k q [] h = refl
  Absent-any_at k q ((j, v) ∷ l) (n, h) = ground (arith, eq_iff j k, Absent-any_at k q l h)

  pub any_at-lookup :
      (k : String) (q : V → Bool) (l : List (String × V))
      → HasUniqueKeys l
      → any_at k q l ≡ passes q (lookup k l)
  unfolding lookup
  any_at-lookup k q [] h = refl
  any_at-lookup k q ((j, v) ∷ l) (a, h) = elim (Bool-cases (j == k)) [
    | inl e ↦
        let same = (eq_iff j k).0 e in
        ground (arith, e, Absent-any_at k q l (subst (λ i. Absent i l) same a))
    | inr e ↦ ground (arith, e, any_at-lookup k q l h)
  ]
