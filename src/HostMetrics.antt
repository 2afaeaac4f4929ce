-- ===== src/HostMetrics.antt =====
-- apps/server/src/metrics/host-metrics.service.ts. The readings are the JSON values that the agent
-- sent: the gateway only tests that they are there.
pub mod Laws
use docksight.Base.{ℕ, String, ◌==◌, Option, none, some}
use docksight.Dict.{Dict, empty, get, set}
use docksight.Inventory.{or_found}
use docksight.Json.{Json, filled}

pub record HostMetricsSnapshot (Num : Type 0) : Type 0 where
  pub host_id : String
  pub agent_uuid : String
  pub cpu : Json Num
  pub memory : Json Num
  pub collected_at : ℕ
  pub received_at : ℕ

-- The part of a `metrics.host` payload that is stored; `collected_at` is the time that
-- `new Date(payload.collectedAt)` gives, or `none` where that is missing or an invalid date.
pub record HostMetricsPayload (Num : Type 0) : Type 0 where
  pub cpu : Json Num
  pub memory : Json Num
  pub collected_at : Option ℕ

pub record HostMetrics (Num : Type 0) : Type 0 where
  pub by_host_id : Dict (HostMetricsSnapshot Num)
  pub host_id_by_uuid : Dict String

-- parseTimestamp, of the date that the text stands for.
unfoldable pub parse_timestamp : ℕ → Option ℕ → ℕ
parse_timestamp now none = now
parse_timestamp now (some at) = at

module _ {Num : Type 0} where
  unfoldable pub new_host_metrics : HostMetrics Num
  new_host_metrics = record { by_host_id = empty; host_id_by_uuid = empty }

  unfoldable pub remember_host : String → String → HostMetrics Num → HostMetrics Num
  remember_host host_id agent_uuid m = record m {
    host_id_by_uuid = set agent_uuid host_id m.host_id_by_uuid;
  }

  unfoldable pub snapshot_of :
      String → String → HostMetricsPayload Num → ℕ → HostMetricsSnapshot Num
  unfolding parse_timestamp
  snapshot_of host_id agent_uuid payload now = record {
    host_id = host_id;
    agent_uuid = agent_uuid;
    cpu = payload.cpu;
    memory = payload.memory;
    collected_at = parse_timestamp now payload.collected_at;
    received_at = now;
  }

  abbrev store_sample :
      Option String
      → String
      → HostMetricsPayload Num
      → ℕ
      → HostMetrics Num
      → HostMetrics Num × Option (HostMetricsSnapshot Num)
  store_sample none agent_uuid payload now m = (m, none)
  store_sample (some host_id) agent_uuid payload now m =
      let snapshot = snapshot_of host_id agent_uuid payload now in
      (
        record {
          by_host_id = set host_id snapshot m.by_host_id;
          host_id_by_uuid = set agent_uuid host_id m.host_id_by_uuid;
        },
        some snapshot,
      )

  -- `set`
  unfoldable pub set_metrics :
      String
      → HostMetricsPayload Num
      → Option String
      → ℕ
      → HostMetrics Num
      → HostMetrics Num × Option (HostMetricsSnapshot Num)
  set_metrics agent_uuid payload host_id now m =
      store_sample (filled (or_found host_id (get agent_uuid m.host_id_by_uuid))) agent_uuid payload
        now m

  unfoldable pub get_by_host_id : String → HostMetrics Num → Option (HostMetricsSnapshot Num)
  get_by_host_id host_id m = get host_id m.by_host_id

  abbrev get_if_known : Option String → HostMetrics Num → Option (HostMetricsSnapshot Num)
  get_if_known none m = none
  get_if_known (some host_id) m = get host_id m.by_host_id

  unfoldable pub get_by_uuid : String → HostMetrics Num → Option (HostMetricsSnapshot Num)
  get_by_uuid agent_uuid m = get_if_known (filled (get agent_uuid m.host_id_by_uuid)) m
