-- ===== src/Web/HostInventory/Totals.antt =====
-- The numbers on the cards of the hosts and the table of all containers agree.
use docksight.Base.{
  ℕ, suc, ◌+◌, String, ◌≡◌, refl, ap, ◌∙◌, Bool, true, false, not, ◌&&◌, ◌||◌, Option, none, some,
  List, [], ◌∷◌, ◌++◌, ◌==◌, inl, inr, Bool-cases, length, length-append, map, if◌then◌else◌,
  eq_refl, arith,
}
use docksight.Dict.{Dict, empty, get, set, get-set}
use docksight.Protocol.Container.{ContainerSummary}
use docksight.Web.Commands.{ContainerRow}
use docksight.Web.HostInventory.{
  InventoryHost, HostQuery, HostInventoryEntry, is_running_state, count_running, first_result,
  later_results, containers_in, entry_of, row_of, all_rows, fill_hosts, by_host_id,
}

abbrev pub has_id : String → List InventoryHost → Bool
has_id id [] = false
has_id id (host ∷ hosts) = host.id == id || has_id id hosts

-- No two hosts have the same id.
abbrev pub distinct_ids : List InventoryHost → Bool
distinct_ids [] = true
distinct_ids (host ∷ hosts) = not (has_id host.id hosts) && distinct_ids hosts

module _ {Num : Type 0} (lower : String → String) where
  -- A number of the entry of a host, which is 0 if there is none.
  abbrev pub on_card : (HostInventoryEntry Num → ℕ) → Option (HostInventoryEntry Num) → ℕ
  on_card f none = 0
  on_card f (some e) = f e

  abbrev pub sum_cards :
      (HostInventoryEntry Num → ℕ) → List InventoryHost → Dict (HostInventoryEntry Num) → ℕ
  sum_cards f [] d = 0
  sum_cards f (host ∷ hosts) d = on_card f (get host.id d) + sum_cards f hosts d

  abbrev pub running_rows : List (ContainerRow Num) → ℕ
  running_rows [] = 0
  running_rows (row ∷ rows) =
      let rest = running_rows rows in
      if is_running_state lower row.container.state then suc rest else rest

  -- The numbers of the entries that the hosts are to have.
  abbrev sum_entries : (HostInventoryEntry Num → ℕ) → List InventoryHost → List (HostQuery Num) → ℕ
  sum_entries f [] results = 0
  sum_entries f (host ∷ hosts) results =
      f (entry_of lower host (first_result results)) + sum_entries f hosts (later_results results)

  fill_hosts-other :
      (id : String) (hosts : List InventoryHost) (results : List (HostQuery Num))
      (d : Dict (HostInventoryEntry Num))
      → has_id id hosts ≡ false
      → get id (fill_hosts lower hosts results d) ≡ get id d
  unfolding fill_hosts
  fill_hosts-other id [] results d h = refl
  fill_hosts-other id (host ∷ hosts) results d h =
      let e = entry_of lower host (first_result results) in
      let p : (host.id == id) ≡ false = ground (arith, h) in
      fill_hosts-other id hosts (later_results results) (set host.id e d) (ground (arith, h))
      ∙ get-set host.id id e d
      ∙ rw p refl

  sum_cards-entries :
      (f : HostInventoryEntry Num → ℕ) (hosts : List InventoryHost) (results : List (HostQuery Num))
      (d : Dict (HostInventoryEntry Num))
      → distinct_ids hosts ≡ true
      → sum_cards f hosts (fill_hosts lower hosts results d) ≡ sum_entries f hosts results
  unfolding fill_hosts
  sum_cards-entries f [] results d h = refl
  sum_cards-entries f (host ∷ hosts) results d h =
      let e = entry_of lower host (first_result results) in
      let d' = set host.id e d in
      let p : get host.id (fill_hosts lower hosts (later_results results) d') ≡ some e =
        fill_hosts-other host.id hosts (later_results results) d' (ground (arith, h))
        ∙ get-set host.id host.id e d
        ∙ rw (eq_refl host.id) refl in
      let q = sum_cards-entries f hosts (later_results results) d' (ground (arith, h)) in
      rw (p, q) refl

  length-map-row_of :
      (host : InventoryHost) (cs : List (ContainerSummary Num))
      → length (map (row_of host) cs) ≡ length cs
  length-map-row_of host [] = refl
  length-map-row_of host (c ∷ cs) = ap suc (length-map-row_of host cs)

  total-rows :
      (hosts : List InventoryHost) (results : List (HostQuery Num))
      → sum_entries (λ e. e.total) hosts results ≡ length (all_rows hosts results)
  unfolding all_rows
  total-rows [] results = refl
  total-rows (host ∷ hosts) results =
      let cs = containers_in (first_result results) in
      let p = length-append (map (row_of host) cs) (all_rows hosts (later_results results)) in
      let q = length-map-row_of host cs in
      let r = total-rows hosts (later_results results) in omega arith

  running_rows-append :
      (host : InventoryHost) (cs : List (ContainerSummary Num)) (rows : List (ContainerRow Num))
      → running_rows (map (row_of host) cs ++ rows) ≡ count_running lower cs + running_rows rows
  running_rows-append host [] rows = ground arith
  running_rows-append host (c ∷ cs) rows =
      let p = running_rows-append host cs rows in
      elim (Bool-cases (is_running_state lower c.state)) [
        | inl e ↦ rw e (omega arith)
        | inr e ↦ rw e p
      ]

  running-rows :
      (hosts : List InventoryHost) (results : List (HostQuery Num))
      → sum_entries (λ e. e.running) hosts results ≡ running_rows (all_rows hosts results)
  unfolding all_rows
  running-rows [] results = refl
  running-rows (host ∷ hosts) results =
      let cs = containers_in (first_result results) in
      let p = running_rows-append host cs (all_rows hosts (later_results results)) in
      let r = running-rows hosts (later_results results) in omega arith

  -- For hosts with different ids, the totals on the cards of the hosts add up to the number of rows in the
  -- table of all containers, and their running counts to the number of running rows, also where the query of
  -- a host has not been answered.
  pub by_host_id-all_rows :
      (hosts : List InventoryHost) (results : List (HostQuery Num))
      → distinct_ids hosts ≡ true
      → (sum_cards (λ e. e.total) hosts (by_host_id lower hosts results)
          ≡ length (all_rows hosts results))
        × (sum_cards (λ e. e.running) hosts (by_host_id lower hosts results)
            ≡ running_rows (all_rows hosts results))
  unfolding by_host_id
  by_host_id-all_rows hosts results h = (
    sum_cards-entries (λ e. e.total) hosts results empty h ∙ total-rows hosts results,
    sum_cards-entries (λ e. e.running) hosts results empty h ∙ running-rows hosts results,
  )
