-- ===== src/Web/HostInventory.antt =====
-- apps/web/src/hooks/useHostInventory.ts: the containers of all hosts, from one query for each host.
-- toLowerCase is a parameter.
pub mod Totals
use docksight.Base.{
  ℕ, suc, String, Bool, true, false, Option, none, some, List, [], ◌∷◌, ◌++◌, ◌==◌, or_else, length,
  map, if◌then◌else◌,
}
use docksight.Dict.{Dict, empty, set}
use docksight.Protocol.Container.{ContainerSummary}
use docksight.Web.HostName.{NamedHost, host_inventory_label}
use docksight.Web.Commands.{ContainerRow}

pub record InventoryHost : Type 0 where
  pub id : String
  pub name : NamedHost

-- The state of the query for one host.
pub record HostQuery (Num : Type 0) : Type 0 where
  pub containers : Option (List (ContainerSummary Num))
  pub is_loading : Bool
  pub is_error : Bool

pub record HostInventoryEntry (Num : Type 0) : Type 0 where
  pub host_id : String
  pub containers : List (ContainerSummary Num)
  pub total : ℕ
  pub running : ℕ
  pub is_loading : Bool
  pub is_error : Bool

abbrev pub is_running_state : (lower : String → String) → String → Bool
is_running_state lower state = lower state == "running"

abbrev pub count_running :
    {Num : Type 0} → (lower : String → String) → List (ContainerSummary Num) → ℕ
count_running lower [] = 0
count_running lower (c ∷ cs) =
    let rest = count_running lower cs in if is_running_state lower c.state then suc rest else rest

module _ {Num : Type 0} where
  -- `results[index]`, and the results from there on.
  abbrev pub first_result : List (HostQuery Num) → Option (HostQuery Num)
  first_result [] = none
  first_result (q ∷ qs) = some q

  abbrev pub later_results : List (HostQuery Num) → List (HostQuery Num)
  later_results [] = []
  later_results (q ∷ qs) = qs

  -- `result?.data?.containers ?? []`
  abbrev pub containers_in : Option (HostQuery Num) → List (ContainerSummary Num)
  containers_in none = []
  containers_in (some q) = or_else q.containers []

  abbrev pub is_loading_in : Option (HostQuery Num) → Bool
  is_loading_in none = false
  is_loading_in (some q) = q.is_loading

  abbrev pub is_error_in : Option (HostQuery Num) → Bool
  is_error_in none = false
  is_error_in (some q) = q.is_error

  abbrev pub entry_of :
      (lower : String → String) → InventoryHost → Option (HostQuery Num) → HostInventoryEntry Num
  entry_of lower host result = record {
    host_id = host.id;
    containers = containers_in result;
    total = length (containers_in result);
    running = count_running lower (containers_in result);
    is_loading = is_loading_in result;
    is_error = is_error_in result;
  }

  abbrev pub row_of : InventoryHost → ContainerSummary Num → ContainerRow Num
  row_of host c = record {
    container = c;
    host_id = some host.id;
    hostname = some (host_inventory_label host.name);
  }

  -- `all`
  unfoldable pub all_rows : List InventoryHost → List (HostQuery Num) → List (ContainerRow Num)
  all_rows [] results = []
  all_rows (host ∷ hosts) results =
      map (row_of host) (containers_in (first_result results))
      ++ all_rows hosts (later_results results)

  -- The loop that fills `byHostId`.
  unfoldable pub fill_hosts :
      (lower : String → String)
      → List InventoryHost
      → List (HostQuery Num)
      → Dict (HostInventoryEntry Num)
      → Dict (HostInventoryEntry Num)
  fill_hosts lower [] results d = d
  fill_hosts lower (host ∷ hosts) results d =
      fill_hosts lower hosts (later_results results)
        (set host.id (entry_of lower host (first_result results)) d)

  unfoldable pub by_host_id :
      (lower : String → String)
      → List InventoryHost
      → List (HostQuery Num)
      → Dict (HostInventoryEntry Num)
  unfolding fill_hosts
  by_host_id lower hosts results = fill_hosts lower hosts results empty
