-- ===== src/Dict/Map.antt =====
-- The map itself: an association list with the proof that its keys differ.
use docksight.Base.{String, ◌≡◌, refl, Bool, List, [], Option, none, some, ◌==◌, if◌then◌else◌, All}
use docksight.Dict.Assoc.{
  lookup, insert, without, HasUniqueKeys, Found-self, lookup-insert, lookup-without, any_at, passes,
  any_at-lookup, insert-HasUniqueKeys, without-HasUniqueKeys,
}

pub record Dict {ℓ} (V : Type ℓ) : Type ℓ where
  items : List (String × V)
  unique : HasUniqueKeys items

module _ {ℓ} {V : Type ℓ} where
  unfoldable pub empty : Dict V
  empty = record { items = []; unique = tt }

  -- map.get(k)
  unfoldable pub get : String → Dict V → Option V
  unfolding lookup
  get k d = lookup k d.items

  -- map.set(k, v)
  unfoldable pub set : String → V → Dict V → Dict V
  unfolding insert
  set k v d = record {
    items = insert k v d.items;
    unique = insert-HasUniqueKeys k v d.items d.unique;
  }

  -- map.delete(k)
  unfoldable pub delete : String → Dict V → Dict V
  unfolding without
  delete k d = record {
    items = without k d.items;
    unique = without-HasUniqueKeys k d.items d.unique;
  }

  -- map.entries()
  unfoldable pub entries : Dict V → List (String × V)
  entries d = d.items

  pub get-set :
      (k j : String) (v : V) (d : Dict V) → get j (set k v d) ≡ (if k == j then some v else get j d)
  unfolding get set
  get-set k j v d = lookup-insert k j v d.items

  pub get-delete :
      (k j : String) (d : Dict V) → get j (delete k d) ≡ (if k == j then none else get j d)
  unfolding get delete
  get-delete k j d = lookup-without k j d.items

  pub get-entries : (d : Dict V) → All (λ e. get e.0 d ≡ some e.1) (entries d)
  unfolding get entries
  get-entries d = Found-self d.items d.unique

  pub entries-HasUniqueKeys : (d : Dict V) → HasUniqueKeys (entries d)
  unfolding entries
  entries-HasUniqueKeys d = d.unique

  -- An entry of the map with that key is what `get` finds.
  pub any_at-entries :
      (k : String) (q : V → Bool) (d : Dict V) → any_at k q (entries d) ≡ passes q (get k d)
  unfolding get entries
  any_at-entries k q d = any_at-lookup k q d.items d.unique

pub get-empty {ℓ} : {V : Type ℓ} (k : String) → get k (empty {V = V}) ≡ none
unfolding get empty lookup
get-empty k = refl
