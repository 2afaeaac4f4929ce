-- ===== src/Tests/Hosts.antt =====
-- One host: its registration, its deletion, and its containers.
use docksight.Base.{
  ℕ, String, Bool, true, false, ◌≡◌, refl, List, [], Option, none, some, ◌==◌, if◌then◌else◌, ltb,
  ◌≤◌, ◌<◌, map,
}
use docksight.Dict.{get, empty}
use docksight.Protocol.Messages.{online, offline, LogsChunk}
use docksight.Text.{is_blank}
use docksight.Agents.{
  Agent, find_by_id, find_by_uuid, register, update_display_name, apply, created, registration_data,
}
use docksight.Agents.Laws.{answer_for, register_known, display_name_survives}
use docksight.Http.{conflict, ok, thrown}
use docksight.Hosts.{HostsState, is_online, delete_host}
use docksight.Hosts.Laws.{delete_host_lem}
use docksight.Containers.{new_stream, on_started, teardown, start_log_stream}
use docksight.Containers.Laws.{early_teardown}
use docksight.Gateway.State.{client_of}
use docksight.Tests.Samples.{numbers, busy}
use docksight.Tests.Table.{table, row, rows, no_rows, returning}

by_id-row : find_by_id table "h1" rows ≡ some row
unfolding find_by_id
by_id-row = refl

by_uuid-row : find_by_uuid table "u1" rows ≡ some row
unfolding find_by_uuid
by_uuid-row = refl

abbrev returned_row : Agent
returned_row = record row {
  hostname = "beta";
  version = "1.1.0";
  status = online;
  last_seen = some 9000;
  updated_at = 9000;
}

register_known_example :
    let (s, answer) = register table returning "h9" 9000 rows in
    (answer ≡ some (answer_for table returned_row))
    × ((u : String)
        → find_by_uuid table u s
          ≡ (if "u1" == u then some returned_row else find_by_uuid table u rows))
    × ((i : String)
        → find_by_id table i s ≡ (if "h1" == i then some returned_row else find_by_id table i rows))
register_known_example = register_known table returning "h9" 9000 rows row by_uuid-row

nobody_by_uuid : find_by_uuid table "u1" no_rows ≡ none
unfolding find_by_uuid
nobody_by_uuid = refl

nobody_by_id : find_by_id table "h9" no_rows ≡ none
unfolding find_by_id
nobody_by_id = refl

abbrev new_row : Agent
new_row = apply (registration_data table returning 9000) 9000 (created "u1" "h9" 9000)

display_name_survives_example :
    let named = (update_display_name table "h1" "Main" 8000 rows).0 in
    let after = (register table returning "h9" 9000 named).0 in
    (b : Agent) × ((find_by_id table "h1" after ≡ some b) × (b.display_name ≡ some "Main"))
display_name_survives_example =
    display_name_survives table "h1" "Main" returning "h9" 8000 9000 rows row by_id-row refl

abbrev week_before : ℕ → ℕ
week_before now = docksight.Base.◌-◌ now 604800000

delete_host_lem_example :
    let (s, answer) = delete_host table week_before "h1" 700000000 rows in
    (is_online offline ≡ true
      → (s ≡ rows) × (answer ≡ thrown (conflict "Cannot delete an active host")))
    × (is_online offline ≡ false
        → week_before 700000000 < 1000
        → (s ≡ rows) × (answer ≡ thrown (conflict "Host must be inactive for at least 7 days")))
    × (is_online offline ≡ false
        → 1000 ≤ week_before 700000000
        → (answer ≡ ok tt)
          × ((i : String)
              → find_by_id table i s ≡ (if "h1" == i then none else find_by_id table i rows)))
delete_host_lem_example = delete_host_lem table week_before "h1" 700000000 rows row by_id-row

abbrev hosts : HostsState table ℕ
hosts = record { agents = rows; inventory = busy.inventory; host_metrics = busy.host_metrics }

not_blank_host : is_blank "h1" ≡ false
unfolding is_blank
not_blank_host = refl

not_blank_container : is_blank "c1" ≡ false
unfolding is_blank
not_blank_container = refl

row-client : client_of "u1" busy ≡ some 2
unfolding client_of get docksight.Dict.set empty
row-client = refl

abbrev nobody : Option Agent
nobody = none

abbrev lines : LogsChunk ℕ
lines = record { request_id = "r2"; container_id = none; entries = [] }

no_request_id : (new_stream {Num = ℕ}).request_id ≡ none
unfolding new_stream
no_request_id = refl

early_teardown_example :
    let (gone, k) = teardown new_stream busy in
    let (l, answer) = start_log_stream numbers (some row) "h1" "c1" none none 9 "r3" k in
    let late = on_started answer gone in
    (k ≡ busy)
    × (late.events ≡ (new_stream {Num = ℕ}).events)
    × (get "r3" l.log_subscribers
        ≡ some (record { agent_uuid = "u1"; container_id = "c1"; on_chunk = 9 }))
early_teardown_example =
    early_teardown numbers row "h1" "c1" none none 9 "r3" busy new_stream 2 not_blank_host
      not_blank_container no_request_id row-client
