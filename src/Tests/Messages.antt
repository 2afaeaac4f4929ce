-- ===== src/Tests/Messages.antt =====
-- The messages of one agent, and the close of its older socket.
use docksight.Base.{ℕ, String, Bool, true, [], ◌∷◌, some, none, ◌≡◌, refl, ◌≢◌, ◌==◌, if◌then◌else◌}
use docksight.Dict.{empty, get, set}
use docksight.Json.{Fields, str, arr, field, end}
use docksight.Protocol.Container.{ContainerAction}
use docksight.Inventory
use docksight.Parser.Listed.{summaries_json}
use docksight.Gateway.State.{resolve_list, is_open, client_of}
use docksight.Gateway.Calls.{send_container_command, thrown}
use docksight.Gateway.Disconnect.{handle_disconnect}
use docksight.Gateway.Handlers.{handle_container_listed}
use docksight.Gateway.Cleanup.{unless, handle_disconnect_lem}
use docksight.Gateway.Connections.{stale_disconnect, handle_container_listed_lem}
use docksight.Gateway.Ledger.View.{list_ticket}
use docksight.Tests.Samples.{numbers, restart_request, tail_request, web, busy}
use docksight.Tests.Parsing.{web-IsSummary}

busy-client : client_of "u1" busy ≡ some 2
unfolding client_of get set empty
busy-client = refl

busy-command : get "r1" busy.pending_commands ≡ some restart_request
unfolding get set empty
busy-command = refl

busy-logs : get "r2" busy.log_subscribers ≡ some tail_request
unfolding get set empty
busy-logs = refl

handle_disconnect_lem_example :
    let h = handle_disconnect 2 busy in
    ((v : String)
      → get v h.sockets_by_uuid ≡ (if "u1" == v then none else get v busy.sockets_by_uuid))
    × ((v : String)
        → get v h.pending_lists ≡ (if "u1" == v then none else get v busy.pending_lists))
    × ((q : String)
        → get q h.pending_commands
          ≡ unless (λ p. p.agent_uuid == "u1") (get q busy.pending_commands))
    × ((q : String)
        → get q h.pending_inspects
          ≡ unless (λ p. p.agent_uuid == "u1") (get q busy.pending_inspects))
    × ((q : String)
        → get q h.log_subscribers ≡ unless (λ s. s.agent_uuid == "u1") (get q busy.log_subscribers))
handle_disconnect_lem_example = handle_disconnect_lem 2 "u1" busy refl

stale_disconnect_example :
    let h = handle_disconnect 1 busy in
    (is_open 2 h ≡ true)
    × (client_of "u1" h ≡ none)
    × ((host : String) (a : ContainerAction) (cid q : String) (force : Bool)
        → (send_container_command "u1" host a cid force q h).1 ≡ thrown "Agent is not connected")
stale_disconnect_example = stale_disconnect 1 2 "u1" busy refl busy-client

abbrev tailed : Fields ℕ
tailed = field "requestId" (str "r2") (field "containerId" (str "c1") end)

h1-filled : ◌≢◌ {A = String} "h1" ""
h1-filled = cc

handle_container_listed_lem_example :
    let k =
      handle_container_listed numbers 2
        (field "containers" (arr (summaries_json (web ∷ []))) end)
        5
        busy in
    (Inventory.get_by_uuid "u1" k.inventory ≡ some (Inventory.snapshot_of "h1" "u1" (web ∷ []) 5))
    × ((j : String)
        → Inventory.get_by_host_id j k.inventory ≡ (
            if "h1" == j
            then some (Inventory.snapshot_of "h1" "u1" (web ∷ []) 5)
            else Inventory.get_by_host_id j busy.inventory))
    × (get "u1" k.pending_lists ≡ none)
    × ((t : ℕ)
        → list_ticket (get "u1" busy.pending_lists) ≡ some t
        → k.log ≡ resolve_list t (web ∷ []) ∷ busy.log)
handle_container_listed_lem_example =
    handle_container_listed_lem numbers 2 (web ∷ []) 5 busy "u1" "h1" refl refl h1-filled
      (web-IsSummary, tt)
