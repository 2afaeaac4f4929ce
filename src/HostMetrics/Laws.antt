-- ===== src/HostMetrics/Laws.antt =====
-- What the metrics store answers after each operation.
use docksight.Base.{
  ℕ, String, ◌==◌, ◌≡◌, refl, ◌≢◌, Option, none, some, arith, eq_iff, eq_refl, if◌then◌else◌,
}
use docksight.Dict.{get, get-set}
use docksight.Inventory.{or_found}
use docksight.Json.{filled, filled-eq-some}
use docksight.HostMetrics.{
  HostMetrics, HostMetricsPayload, remember_host, set_metrics, snapshot_of, get_by_host_id,
  get_by_uuid,
}

module _ {Num : Type 0} where
  -- The host that a sample of the agent belongs to: the one given, or else the one remembered.
  abbrev pub resolved : String → Option String → HostMetrics Num → Option String
  resolved u h m = filled (or_found h (get u m.host_id_by_uuid))

  -- A sample is stored under its host: every later read of the host, or of the agent, answers it,
  -- and every other host keeps its own. The sample has the time that the agent gave, or that of
  -- receipt if the agent's is no date.
  pub set_metrics_lem :
      (u : String) (p : HostMetricsPayload Num) (h : Option String) (now : ℕ) (m : HostMetrics Num)
      (k : String)
      → resolved u h m ≡ some k
      → let r = set_metrics u p h now m in
        let s = snapshot_of k u p now in
        (r.1 ≡ some s)
        × (get_by_uuid u r.0 ≡ some s)
        × ((j : String) → get_by_host_id j r.0 ≡ (if k == j then some s else get_by_host_id j m))
  unfolding set_metrics get_by_uuid get_by_host_id
  set_metrics_lem u p h now m k e = rw e (
    refl,
    ground (
      arith,
      get-set u u k m.host_id_by_uuid,
      eq_refl u,
      filled-eq-some (or_found h (get u m.host_id_by_uuid)) e,
      get-set k k (snapshot_of k u p now) m.by_host_id,
      eq_refl k,
    ),
    λ j. get-set k j (snapshot_of k u p now) m.by_host_id,
  )

  -- A sample whose host is not known is not stored, and the answer is null.
  pub set_metrics-unresolved :
      (u : String) (p : HostMetricsPayload Num) (h : Option String) (now : ℕ) (m : HostMetrics Num)
      → resolved u h m ≡ none
      → set_metrics u p h now m ≡ (m, none)
  unfolding set_metrics
  set_metrics-unresolved u p h now m e = rw e refl

  -- After `rememberHost` a sample with no host id of its own goes to the remembered host, if that
  -- has an id.
  pub set_metrics-remember_host :
      (k u : String) (p : HostMetricsPayload Num) (now : ℕ) (m : HostMetrics Num)
      → k ≢ ""
      → get_by_host_id k (set_metrics u p none now (remember_host k u m)).0
        ≡ some (snapshot_of k u p now)
  unfolding set_metrics get_by_host_id remember_host
  set_metrics-remember_host k u p now m h = ground (
    arith,
    get-set u u k m.host_id_by_uuid,
    eq_refl u,
    eq_iff k "",
    get-set k k (snapshot_of k u p now) m.by_host_id,
    eq_refl k,
  )
