-- ===== src/Containers/Laws.antt =====
-- What the browser is answered, and what becomes of a log stream.
use docksight.Base.{
  ℕ, String, Bool, true, false, ◌≡◌, refl, Option, none, some, arith, eq_refl, or_else,
}
use docksight.Dict.{get, get-set}
use docksight.Text.{is_blank, includes}
use docksight.Json.{Numbers}
use docksight.Protocol.Container.{ContainerAction, start, stop, restart, remove, pause, unpause}
use docksight.Protocol.Messages.{LogsChunk}
use docksight.Gateway.State.{Gateway, LogSubscriber, client_of, send}
use docksight.Gateway.Calls
use docksight.Gateway.Calls.{thrown, returned, LogStreamOptions}
use docksight.Gateway.Disconnect.{command_lost, inspect_lost}
use docksight.Gateway.Step.{command_timed_out, inspect_timed_out}
use docksight.Gateway.Routing.{send_container_command-closed, client_of-remember}
use docksight.Agents.{Agent}
use docksight.Hosts.{host_not_found}
use docksight.Http.{bad_request, not_found, service_unavailable, gateway_timeout, map_error}
use docksight.Containers.{
  target, run_lifecycle_action, start_log_stream, LogStream, on_chunk, on_started, teardown,
}

map_error-command_timed_out :
    (a : ContainerAction) → map_error (command_timed_out a) ≡ gateway_timeout (command_timed_out a)
unfolding map_error includes
map_error-command_timed_out start = refl
map_error-command_timed_out stop = refl
map_error-command_timed_out restart = refl
map_error-command_timed_out remove = refl
map_error-command_timed_out pause = refl
map_error-command_timed_out unpause = refl

-- The HTTP status of each error that the service and the gateway raise: a missing host is 404, an
-- agent that is not connected 503, one that does not answer in time 504, a missing id 400, and an
-- agent that disconnects before it answers 400 as well.
pub map_error_lem :
    ((id : String) → map_error (host_not_found id) ≡ not_found (host_not_found id))
    × (map_error "Agent is not connected" ≡ service_unavailable "Agent is not connected")
    × ((a : ContainerAction)
        → map_error (command_timed_out a) ≡ gateway_timeout (command_timed_out a))
    × (map_error inspect_timed_out ≡ gateway_timeout inspect_timed_out)
    × (map_error "hostId is required" ≡ bad_request "hostId is required")
    × (map_error "containerId is required" ≡ bad_request "containerId is required")
    × (map_error command_lost ≡ bad_request command_lost)
    × (map_error inspect_lost ≡ bad_request inspect_lost)
unfolding map_error includes
map_error_lem = (λ id. refl, refl, map_error-command_timed_out, refl, refl, refl, refl, refl)

module _ {Num : Type 0} where
  -- A lifecycle action that cannot be carried out is refused and leaves the gateway as it was: for a
  -- blank host id, for a blank container id, and for a host that is not there. For a host whose agent
  -- has no open socket it is refused too, and nothing is sent and nothing waits.
  pub run_lifecycle_action_refused :
      (found : Option Agent) (h c : String) (a : ContainerAction) (force : Bool) (q : String)
      (g : Gateway Num)
      → let (k, answer) = run_lifecycle_action found h c a force q g in
        (is_blank h ≡ true → (k ≡ g) × (answer ≡ thrown "hostId is required"))
        × (is_blank h ≡ false
            → is_blank c ≡ true
            → (k ≡ g) × (answer ≡ thrown "containerId is required"))
        × (is_blank h ≡ false
            → is_blank c ≡ false
            → found ≡ none
            → (k ≡ g) × (answer ≡ thrown (host_not_found h)))
        × ((row : Agent)
            → is_blank h ≡ false
            → is_blank c ≡ false
            → found ≡ some row
            → client_of row.uuid g ≡ none
            → (answer ≡ thrown "Agent is not connected")
              × (k.log ≡ g.log)
              × (k.pending_commands ≡ g.pending_commands)
              × (k.timers ≡ g.timers))
  unfolding run_lifecycle_action target
  run_lifecycle_action_refused found h c a force q g = (
    λ p. rw p (refl, refl),
    λ p r. rw (p, r) (refl, refl),
    λ p r e. rw (p, r, e) (refl, refl),
    λ row p r e f. rw (p, r, e) (send_container_command-closed row.uuid row.id a c force q g f),
  )

  -- Once the browser has gone, no chunk is passed on to it.
  pub teardown-silences :
      (payload : LogsChunk Num) (s : LogStream Num) (g : Gateway Num)
      → on_chunk payload (teardown s g).0 ≡ (teardown s g).0
  unfolding on_chunk teardown
  teardown-silences payload s g = refl

module _ (n : Numbers) where
  open n use {Num}

  get-start_log_stream :
      (o : LogStreamOptions Num) (q : String) (g : Gateway Num) (c : ℕ)
      → client_of o.agent_uuid g ≡ some c
      → let (k, answer) = Calls.start_log_stream n o q g in
        (answer ≡ returned q)
        × (get q k.log_subscribers
            ≡ some (record {
              agent_uuid = o.agent_uuid;
              container_id = o.container_id;
              on_chunk = o.on_chunk;
            }))
  unfolding Calls.start_log_stream send
  get-start_log_stream o q g c e =
      let new : LogSubscriber = record {
        agent_uuid = o.agent_uuid;
        container_id = o.container_id;
        on_chunk = o.on_chunk;
      } in
      rw (client_of-remember o.agent_uuid o.host_id g, e)
        (refl, ground (arith, get-set q q new g.log_subscribers, eq_refl q))

  -- When the browser goes while its log stream is being opened, the teardown has no request id yet and
  -- leaves the gateway as it is; the stream is opened all the same, its subscription stands in the
  -- gateway, and nothing of it is sent to the browser.
  pub early_teardown :
      (row : Agent) (h c : String) (tail : Option Num) (follow : Option Bool) (f : ℕ) (q : String)
      (g : Gateway Num) (s : LogStream Num) (client : ℕ)
      → is_blank h ≡ false
      → is_blank c ≡ false
      → s.request_id ≡ none
      → client_of row.uuid g ≡ some client
      → let (gone, k) = teardown s g in
        let (l, answer) = start_log_stream n (some row) h c tail follow f q k in
        let late = on_started answer gone in
        (k ≡ g)
        × (late.events ≡ s.events)
        × (get q l.log_subscribers
            ≡ some (record { agent_uuid = row.uuid; container_id = c; on_chunk = f }))
  unfolding teardown start_log_stream target on_started
  early_teardown row h c tail follow f q g s client p r e open_client =
      let o : LogStreamOptions Num = record {
        agent_uuid = row.uuid;
        host_id = row.id;
        container_id = c;
        tail = some (or_else tail (n.of_ℕ 100));
        follow = some (or_else follow true);
        on_chunk = f;
      } in
      let (started, waits) = get-start_log_stream o q g client open_client in
      rw (e, p, r, started) (refl, refl, waits)
