-- ===== src/Gateway/Step.antt =====
-- One step of the gateway for each event of the runtime, the agents and the rest of the server. A
-- handler that awaits the database runs in two steps, and other events may come in between.
use Prim.Native.String
use docksight.Base.{ℕ, String, Bool, Option, none, some, ◌≡◌}
use docksight.Dict.{get, delete}
use docksight.Json.{Numbers}
use docksight.Protocol.Container.{ContainerAction, action_text}
use docksight.Protocol.Messages.{AgentRegistered}
use docksight.Inventory
use docksight.Inventory.{containers_of}
use docksight.Gateway.State.{
  Gateway, TimerTask, list_timeout, command_timeout, inspect_timeout, resolve_list, reject_command,
  reject_inspect, ReadyState, fresh_socket, put_socket, emit, cancel, timer_of, new_gateway,
}
use docksight.Gateway.Calls.{
  request_container_list, send_container_command, inspect_container, LogStreamOptions,
  start_log_stream, stop_log_stream,
}
use docksight.Gateway.Disconnect.{handle_disconnect}
use docksight.Gateway.Handlers.{handle_registered}
use docksight.Gateway.Messages.{RawData, Runtime, handle_message}

pub data Event (Num : Type 0) : Type 0 where
  -- a socket opens; its ready state changes; it is closed
  connected : (client : ℕ) → Event Num
  ready_changed : (client : ℕ) → ReadyState → Event Num
  disconnected : (client : ℕ) → Event Num
  -- a frame arrives; the database answers a registration
  message : (client : ℕ) → RawData → (now : ℕ) → Event Num
  registered : (client : ℕ) → AgentRegistered → Event Num
  -- a timer runs out
  timed_out : (ticket : ℕ) → Event Num
  -- the server's own calls
  list_call : (agent_uuid host_id : String) → Event Num
  command_call :
      (agent_uuid host_id : String)
      → ContainerAction
      → (container_id : String) → (force : Bool) → (request_id : String) → Event Num
  inspect_call : (agent_uuid host_id container_id request_id : String) → Event Num
  logs_call : LogStreamOptions Num → (request_id : String) → Event Num
  stop_logs_call : (request_id : String) → Event Num

abbrev pub command_timed_out : ContainerAction → String
command_timed_out action =
    String.◌++◌ "Agent timed out waiting for container.result ("
      (String.◌++◌ (action_text action) ")")

abbrev pub inspect_timed_out : String
inspect_timed_out = "Agent timed out waiting for container.inspected"

module _ {Num : Type 0} where
  -- handleConnection: the socket's listeners are set, and nothing else.
  unfoldable pub handle_connection : ℕ → Gateway Num → Gateway Num
  handle_connection client g = record g { sockets = put_socket client fresh_socket g.sockets }

  unfoldable pub set_ready_state : ℕ → ReadyState → Gateway Num → Gateway Num
  set_ready_state client s g = record g {
    sockets = put_socket client (record (g.sockets client) { ready_state = s }) g.sockets;
  }

  -- The callbacks of the three timers; each settles its own promise.
  abbrev pub run_task : Option TimerTask → ℕ → Gateway Num → Gateway Num
  run_task none ticket g = g
  run_task (some (list_timeout agent_uuid host_id)) ticket g =
      emit (resolve_list ticket (containers_of (Inventory.get_by_host_id host_id g.inventory)))
        (record g {
          timers = cancel ticket g.timers;
          pending_lists = delete agent_uuid g.pending_lists;
        })
  run_task (some (command_timeout request_id action)) ticket g =
      emit (reject_command ticket (command_timed_out action)) (record g {
        timers = cancel ticket g.timers;
        pending_commands = delete request_id g.pending_commands;
      })
  run_task (some (inspect_timeout request_id)) ticket g =
      emit (reject_inspect ticket inspect_timed_out) (record g {
        timers = cancel ticket g.timers;
        pending_inspects = delete request_id g.pending_inspects;
      })

  -- A timer that was cleared does not fire.
  unfoldable pub fire_timer : ℕ → Gateway Num → Gateway Num
  fire_timer ticket g = run_task (timer_of ticket g.timers) ticket g

module _ (n : Numbers) (r : Runtime n) where
  open n use {Num}

  unfoldable pub step : Event Num → Gateway Num → Gateway Num
  step (connected client) g = handle_connection client g
  step (ready_changed client s) g = set_ready_state client s g
  step (disconnected client) g = handle_disconnect client g
  step (message client raw now) g = handle_message n r client raw now g
  step (registered client result) g = handle_registered client result g
  step (timed_out ticket) g = fire_timer ticket g
  step (list_call agent_uuid host_id) g = (request_container_list agent_uuid host_id g).0
  step (command_call agent_uuid host_id action container_id force request_id) g =
      (send_container_command agent_uuid host_id action container_id force request_id g).0
  step (inspect_call agent_uuid host_id container_id request_id) g =
      (inspect_container agent_uuid host_id container_id request_id g).0
  step (logs_call options request_id) g = (start_log_stream n options request_id g).0
  step (stop_logs_call request_id) g = stop_log_stream request_id g

  -- `randomUUID` gives an id that no pending request has.
  abbrev pub IsFresh : Event Num → Gateway Num → Type 0
  IsFresh (command_call _ _ _ _ _ request_id) g = get request_id g.pending_commands ≡ none
  IsFresh (inspect_call _ _ _ request_id) g = get request_id g.pending_inspects ≡ none
  IsFresh _ g = Unit

  -- The states that the gateway can get into, whatever happens in whatever order.
  pub data Reach : Gateway Num → Type 0 where
    started : Reach new_gateway
    next :
        {g : Gateway Num}
        → Reach g
        → (e : Event Num) → IsFresh e g
        → {h : Gateway Num} → h ≡ step e g
        → Reach h
