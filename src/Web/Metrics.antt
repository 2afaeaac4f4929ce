-- ===== src/Web/Metrics.antt =====
-- apps/web/src/lib/metrics.ts and apps/web/src/hooks/useHostMetrics.ts: the readings of a host and the
-- short history for the charts. The time is in milliseconds.
pub mod History
use docksight.Base.{
  ℕ, String, Bool, true, false, not, Option, none, some, List, [], ◌∷◌, ◌++◌, ◌+◌, ◌==◌, map,
  take_last, ltb, if◌then◌else◌,
}
use docksight.Json.{filled}

pub record CpuMetrics (Num : Type 0) : Type 0 where
  pub usage_percent : Num
  pub cores : Num
  pub load_avg : Option (Num × (Num × Num))

pub record MemoryMetrics (Num : Type 0) : Type 0 where
  pub total_bytes : Num
  pub used_bytes : Num
  pub available_bytes : Num
  pub usage_percent : Num

pub record MetricsResponse (Num : Type 0) : Type 0 where
  pub host_id : String
  pub cpu : Option (CpuMetrics Num)
  pub memory : Option (MemoryMetrics Num)
  pub collected_at : Option String

pub record HostResources (Num : Type 0) : Type 0 where
  pub has_data : Bool
  pub cpu_percent : Num
  pub cpu_cores : Num
  pub load_avg : Option (Num × (Num × Num))
  pub memory_percent : Num
  pub memory_used_bytes : Num
  pub memory_total_bytes : Num
  pub memory_available_bytes : Num
  pub collected_at : Option String
  pub cpu_series : List Num
  pub memory_series : List Num

module _ {Num : Type 0} (zero : Num) where
  abbrev pub empty_host_resources : HostResources Num
  empty_host_resources = record {
    has_data = false;
    cpu_percent = zero;
    cpu_cores = zero;
    load_avg = none;
    memory_percent = zero;
    memory_used_bytes = zero;
    memory_total_bytes = zero;
    memory_available_bytes = zero;
    collected_at = none;
    cpu_series = [];
    memory_series = [];
  }

  abbrev pub resources_of :
      Option (CpuMetrics Num) → Option (MemoryMetrics Num) → Option String → HostResources Num
  resources_of (some cpu) (some memory) collected_at = record {
    has_data = true;
    cpu_percent = cpu.usage_percent;
    cpu_cores = cpu.cores;
    load_avg = cpu.load_avg;
    memory_percent = memory.usage_percent;
    memory_used_bytes = memory.used_bytes;
    memory_total_bytes = memory.total_bytes;
    memory_available_bytes = memory.available_bytes;
    collected_at = collected_at;
    cpu_series = [];
    memory_series = [];
  }
  resources_of _ _ collected_at = empty_host_resources

  -- toHostResources
  unfoldable pub to_host_resources : Option (MetricsResponse Num) → HostResources Num
  to_host_resources none = empty_host_resources
  to_host_resources (some m) = resources_of m.cpu m.memory m.collected_at

-- isStale, where `parse` is `new Date(text).valueOf()` and `none` is NaN.
unfoldable pub is_stale : (parse : String → Option ℕ) → Option String → ℕ → Bool
is_stale parse collected_at now = elim (filled collected_at) [
  | none ↦ true
  | some text ↦ elim (parse text) [ none ↦ true | some at ↦ ltb (at + 45000) now ]
]

abbrev pub history_length : ℕ
history_length = 24

pub record Sample (Num : Type 0) : Type 0 where
  pub collected_at : String
  pub cpu : Num
  pub memory : Num

-- The state of the hook: the host that it is for, and its history.
pub record ChartHistory (Num : Type 0) : Type 0 where
  pub host_ref : Option String
  pub history : List (Sample Num)

abbrev pub is_last : Option String → String → Bool
is_last none at = false
is_last (some last) at = last == at

module _ {Num : Type 0} where
  -- `previous[previous.length - 1]?.collectedAt`
  abbrev pub last_collected : List (Sample Num) → Option String
  last_collected [] = none
  last_collected (s ∷ []) = some s.collected_at
  last_collected (s ∷ t ∷ ts) = last_collected (t ∷ ts)

  unfoldable pub add_sample : Sample Num → List (Sample Num) → List (Sample Num)
  add_sample s previous =
      if is_last (last_collected previous) s.collected_at
      then previous
      else take_last history_length (previous ++ (s ∷ []))

  -- The sample of an answer, if it has all of one.
  abbrev pub reading_of :
      Option (CpuMetrics Num) → Option (MemoryMetrics Num) → Option String → Option (Sample Num)
  reading_of (some cpu) (some memory) (some at) =
      some (record { collected_at = at; cpu = cpu.usage_percent; memory = memory.usage_percent })
  reading_of _ _ _ = none

  abbrev pub add_if : Option (Sample Num) → ChartHistory Num → ChartHistory Num
  add_if none h = h
  add_if (some s) h = record h { history = add_sample s h.history }

-- What happens to the hook: it renders for a host, or an answer has come.
pub data HistoryEvent (Num : Type 0) : Type 0 where
  rendered : Option String → HistoryEvent Num
  answered : MetricsResponse Num → HistoryEvent Num

abbrev pub same_host : Option String → Option String → Bool
same_host none none = true
same_host (some a) (some b) = a == b
same_host _ _ = false

module _ {Num : Type 0} where
  unfoldable pub history_step : HistoryEvent Num → ChartHistory Num → ChartHistory Num
  unfolding add_sample
  history_step (rendered host) h =
      if same_host h.host_ref host then h else record { host_ref = host; history = [] }
  history_step (answered m) h = add_if (reading_of m.cpu m.memory (filled m.collected_at)) h

  unfoldable pub run_history : List (HistoryEvent Num) → ChartHistory Num → ChartHistory Num
  unfolding history_step
  run_history [] h = h
  run_history (e ∷ es) h = run_history es (history_step e h)
