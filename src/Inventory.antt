-- ===== src/Inventory.antt =====
-- apps/server/src/agents/container-inventory.service.ts. A `Date` is its milliseconds; the clock is
-- an argument of the calls that read it.
pub mod Laws
use docksight.Base.{ℕ, String, ◌==◌, List, [], Option, none, some, if◌then◌else◌}
use docksight.Dict.{Dict, empty, get, set}
use docksight.Json.{filled}
use docksight.Protocol.Container.{ContainerSummary}

pub record HostContainerSnapshot (Num : Type 0) : Type 0 where
  pub host_id : String
  pub agent_uuid : String
  pub containers : List (ContainerSummary Num)
  pub updated_at : ℕ

pub record ContainerInventory (Num : Type 0) : Type 0 where
  pub by_host_id : Dict (HostContainerSnapshot Num)
  pub host_id_by_uuid : Dict String

-- `explicit ?? found`.
abbrev pub or_found : Option String → Option String → Option String
or_found none found = found
or_found (some h) found = some h

module _ {Num : Type 0} where
  unfoldable pub new_inventory : ContainerInventory Num
  new_inventory = record { by_host_id = empty; host_id_by_uuid = empty }

  -- The snapshots of `rememberHost`: a new host has no containers, a known one gets the new uuid.
  abbrev remember_snapshot :
      String
      → String
      → Option (HostContainerSnapshot Num)
      → Dict (HostContainerSnapshot Num)
      → Dict (HostContainerSnapshot Num)
  remember_snapshot host_id agent_uuid none d =
      set host_id
        (record { host_id = host_id; agent_uuid = agent_uuid; containers = []; updated_at = 0 }) d
  remember_snapshot host_id agent_uuid (some existing) d =
      if existing.agent_uuid == agent_uuid
      then d
      else set host_id (record existing { agent_uuid = agent_uuid }) d

  unfoldable pub remember_host : String → String → ContainerInventory Num → ContainerInventory Num
  remember_host host_id agent_uuid inv = record {
    by_host_id = remember_snapshot host_id agent_uuid (get host_id inv.by_host_id) inv.by_host_id;
    host_id_by_uuid = set agent_uuid host_id inv.host_id_by_uuid;
  }

  abbrev pub snapshot_of :
      String → String → List (ContainerSummary Num) → ℕ → HostContainerSnapshot Num
  snapshot_of host_id agent_uuid containers now = record {
    host_id = host_id;
    agent_uuid = agent_uuid;
    containers = containers;
    updated_at = now;
  }

  abbrev store_snapshot :
      Option String
      → String
      → List (ContainerSummary Num)
      → ℕ
      → ContainerInventory Num
      → ContainerInventory Num × Option (HostContainerSnapshot Num)
  store_snapshot none agent_uuid containers now inv = (inv, none)
  store_snapshot (some host_id) agent_uuid containers now inv =
      let snapshot = snapshot_of host_id agent_uuid containers now in
      (
        record {
          by_host_id = set host_id snapshot inv.by_host_id;
          host_id_by_uuid = set agent_uuid host_id inv.host_id_by_uuid;
        },
        some snapshot,
      )

  unfoldable pub set_containers :
      String
      → List (ContainerSummary Num)
      → Option String
      → ℕ
      → ContainerInventory Num
      → ContainerInventory Num × Option (HostContainerSnapshot Num)
  set_containers agent_uuid containers host_id now inv =
      store_snapshot (filled (or_found host_id (get agent_uuid inv.host_id_by_uuid))) agent_uuid
        containers now inv

  unfoldable pub get_by_host_id :
      String → ContainerInventory Num → Option (HostContainerSnapshot Num)
  get_by_host_id host_id inv = get host_id inv.by_host_id

  abbrev get_if_known : Option String → ContainerInventory Num → Option (HostContainerSnapshot Num)
  get_if_known none inv = none
  get_if_known (some host_id) inv = get host_id inv.by_host_id

  unfoldable pub get_by_uuid : String → ContainerInventory Num → Option (HostContainerSnapshot Num)
  get_by_uuid agent_uuid inv = get_if_known (filled (get agent_uuid inv.host_id_by_uuid)) inv

  -- `snapshot?.containers ?? []`
  abbrev pub containers_of : Option (HostContainerSnapshot Num) → List (ContainerSummary Num)
  containers_of none = []
  containers_of (some s) = s.containers
