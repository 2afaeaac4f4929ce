-- ===== src/Hosts.antt =====
-- apps/server/src/hosts/hosts.service.ts and hosts.controller.ts. A `Date` is its milliseconds, also
-- where the source writes it as an ISO text.
pub mod Laws
use docksight.Base.{
  ℕ, String, Bool, List, [], ◌∷◌, map, Option, none, some, ltb, ◌==◌, if◌then◌else◌,
}
use docksight.Json.{Json, null, filled}
use docksight.Protocol.Container.{ContainerSummary}
use docksight.Protocol.Messages.{AgentStatus, online, status_text}
use docksight.Inventory
use docksight.Inventory.{ContainerInventory, HostContainerSnapshot, containers_of}
use docksight.HostMetrics
use docksight.HostMetrics.{HostMetrics, HostMetricsSnapshot}
use docksight.Text.{trim, concat}
use docksight.Agents.{Agent, AgentTable, find_all, find_by_id, update_display_name, delete_agent}
use docksight.Http.{HttpException, not_found, conflict, internal, Response, ok, thrown}

pub record HostMetricsDto (Num : Type 0) : Type 0 where
  pub host_id : String
  pub cpu : Json Num
  pub memory : Json Num
  pub collected_at : Option ℕ

pub record HostDto (Num : Type 0) : Type 0 where
  pub id : String
  pub uuid : String
  pub hostname : String
  pub display_name : String
  pub os : String
  pub architecture : String
  pub version : String
  pub status : String
  pub last_seen : Option ℕ
  pub metrics : HostMetricsDto Num

pub record HostContainersDto (Num : Type 0) : Type 0 where
  pub host_id : String
  pub containers : List (ContainerSummary Num)
  pub updated_at : Option ℕ

-- `displayName?.trim()`, where it is truthy.
abbrev pub label : Option String → Option String
label none = none
label (some name) = filled (some (trim name))

abbrev pub label_or : Option String → String → String
label_or none hostname = hostname
label_or (some name) hostname = name

-- The activity that the age of a host is counted from: `agent.lastSeen || agent.createdAt`.
abbrev pub last_active : Agent → ℕ
last_active a = elim a.last_seen [ none ↦ a.created_at | some t ↦ t ]

abbrev pub is_online : AgentStatus → Bool
is_online online = Bool.true
is_online _ = Bool.false

module _ {Num : Type 0} where
  unfoldable pub to_metrics_dto : String → Option (HostMetricsSnapshot Num) → HostMetricsDto Num
  to_metrics_dto host_id none = record {
    host_id = host_id;
    cpu = null;
    memory = null;
    collected_at = none;
  }
  to_metrics_dto host_id (some s) = record {
    host_id = host_id;
    cpu = s.cpu;
    memory = s.memory;
    collected_at = some s.collected_at;
  }

  unfoldable pub to_host_dto : Agent → Option (HostMetricsSnapshot Num) → HostDto Num
  unfolding to_metrics_dto
  to_host_dto a snapshot = record {
    id = a.id;
    uuid = a.uuid;
    hostname = a.hostname;
    display_name = label_or (label a.display_name) a.hostname;
    os = a.os;
    architecture = a.architecture;
    version = a.version;
    status = status_text a.status;
    last_seen = a.last_seen;
    metrics = to_metrics_dto a.id snapshot;
  }

  abbrev updated_at_of : Option (HostContainerSnapshot Num) → Option ℕ
  updated_at_of none = none
  updated_at_of (some s) = some s.updated_at

  unfoldable pub remember_all :
      List Agent
      → ContainerInventory Num × HostMetrics Num
      → ContainerInventory Num × HostMetrics Num
  remember_all [] (inv, m) = (inv, m)
  remember_all (a ∷ agents) (inv, m) =
      remember_all agents
        (Inventory.remember_host a.id a.uuid inv, HostMetrics.remember_host a.id a.uuid m)

-- `Host not found: ${id}`
abbrev pub host_not_found : String → String
host_not_found id = concat "Host not found: " id

-- The controller answers 404 for a null.
abbrev or_not_found : {A : Type 0} → String → Option A → Response A
or_not_found id none = thrown (not_found (host_not_found id))
or_not_found id (some a) = ok a

-- The service's state: the table, and the two stores that it shares with the gateway.
pub record HostsState (db : AgentTable) (Num : Type 0) : Type 0 where
  pub agents : db.Table
  pub inventory : ContainerInventory Num
  pub host_metrics : HostMetrics Num

module _ (db : AgentTable) {Num : Type 0} where
  unfoldable pub list_hosts : HostsState db Num → HostsState db Num × List (HostDto Num)
  list_hosts s =
      let agents = find_all db s.agents in
      let (inv, m) = remember_all agents (s.inventory, s.host_metrics) in
      (
        record s { inventory = inv; host_metrics = m },
        map (λ a. to_host_dto a (HostMetrics.get_by_host_id a.id m)) agents,
      )

  abbrev renamed :
      db.Table × Option Agent → HostsState db Num → HostsState db Num × Option (HostDto Num)
  renamed (t, none) s = (record s { agents = t }, none)
  renamed (t, some a) s =
      let m = HostMetrics.remember_host a.id a.uuid s.host_metrics in
      (
        record s { agents = t; host_metrics = m },
        some (to_host_dto a (HostMetrics.get_by_host_id a.id m)),
      )

  -- updateDisplayName, as the controller answers it
  unfoldable pub rename_host :
      String → String → (now : ℕ) → HostsState db Num → HostsState db Num × Response (HostDto Num)
  rename_host host_id display_name now s =
      let (t, dto) = renamed (update_display_name db host_id display_name now s.agents) s in
      (t, or_not_found host_id dto)

  abbrev metrics_of :
      Option Agent → HostsState db Num → HostsState db Num × Option (HostMetricsDto Num)
  metrics_of none s = (s, none)
  metrics_of (some a) s =
      let m = HostMetrics.remember_host a.id a.uuid s.host_metrics in
      (
        record s { host_metrics = m },
        some (to_metrics_dto a.id (HostMetrics.get_by_host_id a.id m)),
      )

  unfoldable pub get_metrics :
      String → HostsState db Num → HostsState db Num × Response (HostMetricsDto Num)
  get_metrics host_id s =
      let (t, dto) = metrics_of (find_by_id db host_id s.agents) s in (t, or_not_found host_id dto)

  abbrev containers_dto :
      Option Agent → HostsState db Num → HostsState db Num × Option (HostContainersDto Num)
  containers_dto none s = (s, none)
  containers_dto (some a) s =
      let inv = Inventory.remember_host a.id a.uuid s.inventory in
      let snapshot = Inventory.get_by_host_id a.id inv in
      (
        record s { inventory = inv },
        some (record {
          host_id = a.id;
          containers = containers_of snapshot;
          updated_at = updated_at_of snapshot;
        }),
      )

  unfoldable pub list_containers :
      String → HostsState db Num → HostsState db Num × Response (HostContainersDto Num)
  list_containers host_id s =
      let (t, dto) = containers_dto (find_by_id db host_id s.agents) s in
      (t, or_not_found host_id dto)

-- `setDate(getDate() - 7)` goes back by calendar days in the server's time zone.
module _ (db : AgentTable) (week_before : ℕ → ℕ) where
  -- The database's exception for a missing row is no HttpException.
  abbrev deleted : Option db.Table → db.Table → db.Table × Response Unit
  deleted none t = (t, thrown (internal "Internal server error"))
  deleted (some s) t = (s, ok tt)

  abbrev delete_if_idle : Option Agent → String → ℕ → db.Table → db.Table × Response Unit
  delete_if_idle none host_id now t = (t, thrown (not_found (host_not_found host_id)))
  delete_if_idle (some a) host_id now t =
      if is_online a.status
      then (t, thrown (conflict "Cannot delete an active host"))
      else if ltb (week_before now) (last_active a)
      then (t, thrown (conflict "Host must be inactive for at least 7 days"))
      else deleted (delete_agent db a.id t) t

  unfoldable pub delete_host : String → (now : ℕ) → db.Table → db.Table × Response Unit
  delete_host host_id now t = delete_if_idle (find_by_id db host_id t) host_id now t
