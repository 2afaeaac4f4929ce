-- ===== src/Inventory/Laws.antt =====
-- What the inventory answers after each operation.
use docksight.Base.{
  ℕ, String, ◌==◌, ◌≡◌, refl, List, [], Option, none, some, arith, eq_iff, eq_refl, if◌then◌else◌,
  Option-cases, AllSome, is_some, inl, inr, true,
}
use docksight.Dict.{get, set, get-empty, get-set}
use docksight.Json.{filled, filled-eq-some}
use docksight.Protocol.Container.{ContainerSummary}
use docksight.Inventory.{
  ContainerInventory, HostContainerSnapshot, new_inventory, remember_host, set_containers,
  get_by_host_id, get_by_uuid, containers_of, or_found, snapshot_of,
}

module _ {Num : Type 0} where
  -- Every snapshot stands under its own host id, and every agent that is mapped to a host has a
  -- snapshot there.
  pub record Inv (inv : ContainerInventory Num) : Type 0 where
    pub own_id : (h : String) → AllSome (λ s. s.host_id ≡ h) (get_by_host_id h inv)
    pub mapped :
        (u : String)
        → AllSome (λ h. is_some (get_by_host_id h inv) ≡ true) (get u inv.host_id_by_uuid)

  pub new_inventory-Inv : Inv new_inventory
  unfolding new_inventory get_by_host_id
  new_inventory-Inv = record {
    own_id = λ h. rw get-empty tt;
    mapped = λ u. rw (get-empty {V = String} u) tt;
  }

  -- The snapshot of a host after `rememberHost`.
  abbrev remembered :
      String → String → Option (HostContainerSnapshot Num) → HostContainerSnapshot Num
  remembered h u none = record { host_id = h; agent_uuid = u; containers = []; updated_at = 0 }
  remembered h u (some s) = record s { agent_uuid = u }

  -- `rememberHost` changes the snapshot of that host alone, and there the agent only: the
  -- containers and their time stay. A new host starts with no containers.
  pub get_by_host_id-remember_host :
      (h u k : String) (inv : ContainerInventory Num)
      → get_by_host_id k (remember_host h u inv)
        ≡ (if h == k then some (remembered h u (get_by_host_id h inv)) else get_by_host_id k inv)
  unfolding get_by_host_id remember_host
  get_by_host_id-remember_host h u k inv = elim (Option-cases (get h inv.by_host_id)) [
    | inl e ↦ rw e (get-set h k _ inv.by_host_id)
    | inr (s, e) ↦ ground (
      arith,
      e,
      eq_iff s.agent_uuid u,
      eq_iff h k,
      get-set h k (record s { agent_uuid = u }) inv.by_host_id,
    )
  ]

  -- The containers that a host is known to have survive `rememberHost`, for every host.
  pub containers_of-remember_host :
      (h u k : String) (inv : ContainerInventory Num)
      → containers_of (get_by_host_id k (remember_host h u inv))
        ≡ containers_of (get_by_host_id k inv)
  containers_of-remember_host h u k inv =
      rw get_by_host_id-remember_host (ground (arith, eq_iff h k))

  -- No host disappears.
  is_some-remember_host :
      (h u k : String) (inv : ContainerInventory Num)
      → is_some (get_by_host_id k inv) ≡ true
      → is_some (get_by_host_id k (remember_host h u inv)) ≡ true
  is_some-remember_host h u k inv p =
      ground (arith, get_by_host_id-remember_host h u k inv, eq_iff h k)

  is_some-remember_host_self :
      (h u : String) (inv : ContainerInventory Num)
      → is_some (get_by_host_id h (remember_host h u inv)) ≡ true
  is_some-remember_host_self h u inv =
      ground (arith, get_by_host_id-remember_host h u h inv, eq_refl h)

  remember_host-mapped :
      (h u v : String) (inv : ContainerInventory Num)
      → AllSome (λ k. is_some (get_by_host_id k inv) ≡ true) (get v inv.host_id_by_uuid)
      → AllSome
          (λ k. is_some (get_by_host_id k (remember_host h u inv)) ≡ true)
          (get v (set u h inv.host_id_by_uuid))
  remember_host-mapped h u v inv i = elim (Option-cases (get v inv.host_id_by_uuid)) [
    | inl e ↦ ground (arith, get-set u v h inv.host_id_by_uuid, is_some-remember_host_self h u inv)
    | inr (k, e) ↦ ground (
      arith,
      get-set u v h inv.host_id_by_uuid,
      is_some-remember_host_self h u inv,
      is_some-remember_host h u k inv,
    )
  ]

  -- `rememberHost` keeps the inventory well-formed.
  pub remember_host-Inv :
      (h u : String) (inv : ContainerInventory Num) → Inv inv → Inv (remember_host h u inv)
  remember_host-Inv h u inv i = record {
    own_id = λ k.
        ground (arith, get_by_host_id-remember_host h u k inv, eq_iff h k, i.own_id k, i.own_id h);
    mapped = λ v. unfold remember_host in remember_host-mapped h u v inv (i.mapped v);
  }

  -- The host that a list belongs to: the one given, or else the one remembered.
  abbrev resolved : String → Option String → ContainerInventory Num → Option String
  resolved u h inv = filled (or_found h (get u inv.host_id_by_uuid))

  -- Without a host for the agent nothing is stored, and the answer is null.
  pub set_containers-unresolved :
      (u : String) (cs : List (ContainerSummary Num)) (h : Option String) (now : ℕ)
      (inv : ContainerInventory Num)
      → resolved u h inv ≡ none
      → set_containers u cs h now inv ≡ (inv, none)
  unfolding set_containers
  set_containers-unresolved u cs h now inv e = rw e refl

  -- When the host of the agent is known, what `setContainers` stores is what every later read of
  -- that host, or of that agent, answers, and every other host keeps its snapshot.
  pub set_containers_lem :
      (u : String) (cs : List (ContainerSummary Num)) (h : Option String) (now : ℕ)
      (inv : ContainerInventory Num) (k : String)
      → resolved u h inv ≡ some k
      → let s = snapshot_of k u cs now in
        let r = set_containers u cs h now inv in
        (r.1 ≡ some s)
        × (get_by_uuid u r.0 ≡ some s)
        × ((j : String) → get_by_host_id j r.0 ≡ (if k == j then some s else get_by_host_id j inv))
  unfolding set_containers get_by_uuid get_by_host_id
  set_containers_lem u cs h now inv k e = rw e (
    refl,
    ground (
      arith,
      get-set u u k inv.host_id_by_uuid,
      eq_refl u,
      filled-eq-some (or_found h (get u inv.host_id_by_uuid)) e,
      get-set k k (snapshot_of k u cs now) inv.by_host_id,
      eq_refl k,
    ),
    λ j. get-set k j (snapshot_of k u cs now) inv.by_host_id,
  )

  set_containers-mapped :
      (u k v : String) (s : HostContainerSnapshot Num) (inv : ContainerInventory Num)
      → AllSome (λ j. is_some (get j inv.by_host_id) ≡ true) (get v inv.host_id_by_uuid)
      → AllSome
          (λ j. is_some (get j (set k s inv.by_host_id)) ≡ true)
          (get v (set u k inv.host_id_by_uuid))
  set_containers-mapped u k v s inv i = elim (Option-cases (get v inv.host_id_by_uuid)) [
    | inl e ↦
        ground (arith, get-set u v k inv.host_id_by_uuid, get-set k k s inv.by_host_id, eq_refl k)
    | inr (j, e) ↦ ground (
      arith,
      get-set u v k inv.host_id_by_uuid,
      get-set k k s inv.by_host_id,
      eq_refl k,
      get-set k j s inv.by_host_id,
    )
  ]

  -- `setContainers` keeps the inventory well-formed, whether it stores or not.
  pub set_containers-Inv :
      (u : String) (cs : List (ContainerSummary Num)) (h : Option String) (now : ℕ)
      (inv : ContainerInventory Num)
      → Inv inv
      → Inv (set_containers u cs h now inv).0
  unfolding set_containers get_by_host_id
  set_containers-Inv u cs h now inv i = elim (Option-cases (resolved u h inv)) [
    | inl e ↦ rw e i
    | inr (k, e) ↦ rw e (record {
      own_id = λ j.
          ground
            (arith, get-set k j (snapshot_of k u cs now) inv.by_host_id, eq_iff k j, i.own_id j);
      mapped = λ v. set_containers-mapped u k v (snapshot_of k u cs now) inv (i.mapped v);
    })
  ]
