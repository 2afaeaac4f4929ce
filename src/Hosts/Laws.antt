-- ===== src/Hosts/Laws.antt =====
-- Which hosts may be deleted, and what the host pages are answered.
use docksight.Base.{
  ℕ, String, true, false, ◌≡◌, refl, none, some, arith, ◌==◌, eq_iff, ltb, ◌≤◌, ◌<◌, if◌then◌else◌,
  Option-cases, inl, inr, List, [], ◌∷◌, map, ◌∙◌, subst, sym,
}
use docksight.Inventory
use docksight.Inventory.{ContainerInventory, containers_of}
use docksight.Inventory.Laws.{containers_of-remember_host}
use docksight.HostMetrics
use docksight.HostMetrics.{HostMetrics}
use docksight.Agents.{Agent, AgentTable, by_id, find_by_id, find_all, delete_agent}
use docksight.Http.{not_found, conflict, ok, thrown}
use docksight.Hosts.{
  HostsState, HostContainersDto, to_host_dto, remember_all, last_active, is_online, host_not_found,
  list_hosts, list_containers, delete_host,
}

module _ (db : AgentTable) (week_before : ℕ → ℕ) where
  -- Of a host that is there: one that is ONLINE is refused, one that was active after the date a week
  -- ago is refused, and the table stays; any other is deleted, and every other host's row stays.
  pub delete_host_lem :
      (id : String) (now : ℕ) (t : db.Table) (a : Agent)
      → find_by_id db id t ≡ some a
      → let (s, answer) = delete_host db week_before id now t in
        (is_online a.status ≡ true
          → (s ≡ t) × (answer ≡ thrown (conflict "Cannot delete an active host")))
        × (is_online a.status ≡ false
            → week_before now < last_active a
            → (s ≡ t) × (answer ≡ thrown (conflict "Host must be inactive for at least 7 days")))
        × (is_online a.status ≡ false
            → last_active a ≤ week_before now
            → (answer ≡ ok tt)
              × ((i : String) → find_by_id db i s ≡ (if id == i then none else find_by_id db i t)))
  unfolding delete_host find_by_id delete_agent
  delete_host_lem id now t a e =
      let key : (a.id == id) ≡ true = ground (arith, db.find_unique_lem (by_id id) t) in
      let same : a.id ≡ id = ground (arith, key, eq_iff a.id id) in
      let found : db.find_unique (by_id a.id) t ≡ some a =
        subst (λ k. db.find_unique (by_id k) t ≡ some a) (sym same) e in
      let (s, gone, rest) = db.delete_found (by_id a.id) t found in
      (
        λ o. rw (e, o) (refl, refl),
        λ o p. ground arith,
        λ o p.
            let old : ltb (week_before now) (last_active a) ≡ false = ground arith in
            rw (e, o, old, gone) (refl, λ i. ground (arith, rest (by_id i), same)),
      )

  -- A host that is not there is answered with 404, and the table stays.
  pub delete_host-unknown :
      (id : String) (now : ℕ) (t : db.Table)
      → find_by_id db id t ≡ none
      → delete_host db week_before id now t ≡ (t, thrown (not_found (host_not_found id)))
  unfolding delete_host find_by_id
  delete_host-unknown id now t e = rw e refl

module _ {Num : Type 0} where
  containers_of-remember_all :
      (agents : List Agent) (s : ContainerInventory Num × HostMetrics Num) (k : String)
      → containers_of (Inventory.get_by_host_id k (remember_all agents s).0)
        ≡ containers_of (Inventory.get_by_host_id k s.0)
  unfolding remember_all
  containers_of-remember_all [] s k = refl
  containers_of-remember_all (a ∷ agents) (inv, m) k =
      containers_of-remember_all agents _ k ∙ containers_of-remember_host a.id a.uuid k inv

  get-remember_all :
      (agents : List Agent) (s : ContainerInventory Num × HostMetrics Num) (k : String)
      → HostMetrics.get_by_host_id k (remember_all agents s).1 ≡ HostMetrics.get_by_host_id k s.1
  unfolding remember_all
  get-remember_all [] s k = refl
  get-remember_all (a ∷ agents) (inv, m) k =
      get-remember_all agents _ k
      ∙ unfold HostMetrics.get_by_host_id HostMetrics.remember_host in refl

  map-to_host_dto :
      (agents : List Agent) (m w : HostMetrics Num)
      → ((k : String) → HostMetrics.get_by_host_id k w ≡ HostMetrics.get_by_host_id k m)
      → map (λ a. to_host_dto a (HostMetrics.get_by_host_id a.id w)) agents
        ≡ map (λ a. to_host_dto a (HostMetrics.get_by_host_id a.id m)) agents
  map-to_host_dto [] m w h = refl
  map-to_host_dto (a ∷ agents) m w h = cc (h a.id, map-to_host_dto agents m w h)

module _ (db : AgentTable) {Num : Type 0} where
  -- The host list has every agent of the table, in the table's order, each with the sample that is
  -- stored for it; what the inventory and the metrics store hold for any host is as it was.
  pub list_hosts_lem :
      (s : HostsState db Num)
      → let (t, dtos) = list_hosts db s in
        (dtos
          ≡ map
              (λ a. to_host_dto a (HostMetrics.get_by_host_id a.id s.host_metrics))
              (find_all db s.agents))
        × ((k : String)
            → containers_of (Inventory.get_by_host_id k t.inventory)
              ≡ containers_of (Inventory.get_by_host_id k s.inventory))
        × ((k : String)
            → HostMetrics.get_by_host_id k t.host_metrics
              ≡ HostMetrics.get_by_host_id k s.host_metrics)
  unfolding list_hosts
  list_hosts_lem s =
      let agents = find_all db s.agents in
      let stores : ContainerInventory Num × HostMetrics Num = (s.inventory, s.host_metrics) in
      (
        map-to_host_dto agents s.host_metrics _ (get-remember_all agents stores),
        containers_of-remember_all agents stores,
        get-remember_all agents stores,
      )

  -- The containers page of a host has the containers that its agent listed last, under the host's
  -- own id, and reading it changes no host's containers; an unknown host is a 404.
  pub list_containers_lem :
      (id : String) (s : HostsState db Num)
      → let (t, answer) = list_containers db id s in
        (find_by_id db id s.agents ≡ none → answer ≡ thrown (not_found (host_not_found id)))
        × ((a : Agent)
            → find_by_id db id s.agents ≡ some a
            → (d : HostContainersDto Num) × ((answer ≡ ok d)
                × ((d.host_id ≡ a.id)
                    × (d.containers ≡ containers_of (Inventory.get_by_host_id a.id s.inventory)))))
        × ((k : String)
            → containers_of (Inventory.get_by_host_id k t.inventory)
              ≡ containers_of (Inventory.get_by_host_id k s.inventory))
  unfolding list_containers
  list_containers_lem id s = (
    λ e. rw e refl,
    λ a e. rw e (_, (refl, (refl, containers_of-remember_host a.id a.uuid a.id s.inventory))),
    λ k. elim (Option-cases (find_by_id db id s.agents)) [
      | inl e ↦ rw e refl
      | inr (a, e) ↦ rw e (containers_of-remember_host a.id a.uuid k s.inventory)
    ],
  )
