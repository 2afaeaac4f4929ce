-- ===== src/Tests/Stores.antt =====
-- The inventory and the metrics store with one host.
use docksight.Base.{ℕ, [], ◌∷◌, some, none}
use docksight.Json.{null}
use docksight.Inventory
use docksight.Inventory.{
  ContainerInventory, new_inventory, set_containers, get_by_host_id, get_by_uuid, containers_of,
  remember_host, snapshot_of,
}
use docksight.Inventory.Laws.{
  Inv, new_inventory-Inv, containers_of-remember_host, set_containers-Inv, set_containers_lem,
}
use docksight.HostMetrics.{HostMetricsPayload}
use docksight.Tests.Samples.{web}

abbrev one_host : ContainerInventory ℕ
one_host = remember_host "h1" "u1" new_inventory

one_host-Inv : Inv one_host
one_host-Inv = Inventory.Laws.remember_host-Inv "h1" "u1" new_inventory new_inventory-Inv

set_containers-Inv_example : Inv (set_containers "u1" (web ∷ []) none 5 one_host).0
set_containers-Inv_example = set_containers-Inv "u1" (web ∷ []) none 5 one_host one_host-Inv

abbrev sample : HostMetricsPayload ℕ
sample = record { cpu = null; memory = null; collected_at = some 3 }
