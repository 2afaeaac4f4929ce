-- ===== src/Gateway/Handlers.antt =====
-- The handlers of registrations, heartbeats, lists, results, inspections and log lines. The tests read
-- the payload as it arrived; a key of a `Map` is a text, so a `requestId` of another type finds
-- nothing, as in the source.
use docksight.Base.{ℕ, String, ◌&&◌, Option, none, some, if◌then◌else◌}
use docksight.Dict.{get, set, delete}
use docksight.Inventory
use docksight.Inventory.{or_found}
use docksight.HostMetrics
use docksight.HostMetrics.{HostMetricsPayload}
use docksight.Json.{
  Numbers, Json, Fields, null, str, obj, end, field, prop, as_text, as_array, or_default, filled,
  truthy,
}
use docksight.Protocol.Envelope.{Envelope, create_envelope}
use docksight.Protocol.Container.{container_list}
use docksight.Protocol.Messages.{
  agent_registered, AgentRegistered, ContainerResult, ContainerInspected, LogsChunk,
}
use docksight.Parser.{parse_container_listed_payload, ParsedContainerListed, entries_of}
use docksight.Gateway.State.{
  Gateway, PendingCommand, PendingInspect, LogSubscriber, resolve_command, resolve_inspect, chunk,
  register_agent, heartbeat, emit, send, cancel, put_socket, resolve_pending_list,
}

module _ {Num : Type 0} where
  abbrev pub registered_envelope : Json Num → Json Num → Json Num → Json Num → Envelope Num
  registered_envelope id uuid status message =
      create_envelope agent_registered
        (field "id" id (field "uuid" uuid (field "status" status (field "message" message end))))

  -- The answer to what is no JSON, or no registration.
  abbrev pub refusal : Json Num → String → Envelope Num
  refusal uuid message = registered_envelope (str "") uuid (str "UNKNOWN") (str message)

  -- What handleRegister does when the database has answered.
  unfoldable pub handle_registered : ℕ → AgentRegistered → Gateway Num → Gateway Num
  handle_registered client result g = send client (create_envelope container_list end) (
      send client
        (registered_envelope (str result.id) (str result.uuid) (str result.status)
          (str result.message))
        (record g {
          sockets =
              put_socket client
                (record (g.sockets client) {
                  agent_uuid = some result.uuid;
                  agent_id = some result.id;
                })
                g.sockets;
          sockets_by_uuid = set result.uuid client g.sockets_by_uuid;
          inventory = Inventory.remember_host result.id result.uuid g.inventory;
          host_metrics = HostMetrics.remember_host result.id result.uuid g.host_metrics;
        }))

  abbrev heartbeat_of : Option String → ℕ → Gateway Num → Gateway Num
  heartbeat_of none client g = g
  heartbeat_of (some uuid) client g = emit (heartbeat uuid) (record g {
    sockets = put_socket client (record (g.sockets client) { agent_uuid = some uuid }) g.sockets;
    sockets_by_uuid = set uuid client g.sockets_by_uuid;
  })

  unfoldable pub handle_heartbeat : ℕ → Fields Num → Gateway Num → Gateway Num
  handle_heartbeat client payload g = heartbeat_of (filled (as_text (prop "uuid" payload))) client g

  -- What handleLogsChunk passes to the subscriber.
  abbrev pub chunk_of : String → Fields Num → LogsChunk Num
  chunk_of request_id payload = record {
    request_id = request_id;
    container_id = prop "containerId" payload;
    entries = entries_of (as_array (prop "entries" payload));
  }

  abbrev deliver_chunk : Option LogSubscriber → String → Fields Num → Gateway Num → Gateway Num
  deliver_chunk none request_id payload g = g
  deliver_chunk (some s) request_id payload g =
      emit (chunk s.on_chunk (chunk_of request_id payload)) g

  abbrev chunk_for : Option String → Fields Num → Gateway Num → Gateway Num
  chunk_for none payload g = g
  chunk_for (some request_id) payload g =
      deliver_chunk (get request_id g.log_subscribers) request_id payload g

  unfoldable pub handle_logs_chunk : Fields Num → Gateway Num → Gateway Num
  handle_logs_chunk payload g = chunk_for (filled (as_text (prop "requestId" payload))) payload g

module _ (n : Numbers) where
  open n use {Num}

  unfoldable pub handle_register : ℕ → Fields Num → Gateway Num → Gateway Num
  handle_register client payload g =
      if truthy n (prop "uuid" payload)
        && truthy n (prop "hostname" payload)
        && truthy n (prop "os" payload)
      then emit
          (register_agent client (record {
            uuid = or_default (prop "uuid" payload) null;
            hostname = or_default (prop "hostname" payload) null;
            os = or_default (prop "os" payload) null;
            architecture = or_default (prop "architecture" payload) (str "unknown");
            version = or_default (prop "version" payload) (str "unknown");
          }))
          g
      else send client
          (refusal (or_default (prop "uuid" payload) (str "")) "Invalid registration payload") g

  abbrev listed_for : Option String → ParsedContainerListed Num → ℕ → ℕ → Gateway Num → Gateway Num
  listed_for none parsed client now g = g
  listed_for (some uuid) parsed client now g =
      resolve_pending_list uuid parsed.containers (record g {
        inventory =
            (Inventory.set_containers uuid parsed.containers (g.sockets client).agent_id now
              g.inventory).0;
      })

  unfoldable pub handle_container_listed : ℕ → Fields Num → ℕ → Gateway Num → Gateway Num
  handle_container_listed client payload now g =
      listed_for (filled (g.sockets client).agent_uuid)
        (parse_container_listed_payload n (obj payload)) client now g

  -- What a command's promise is resolved with.
  abbrev pub result_of : String → Fields Num → ContainerResult Num
  result_of request_id payload = record {
    request_id = request_id;
    action = prop "action" payload;
    container_id = prop "containerId" payload;
    ok = truthy n (prop "ok" payload);
    message = or_default (prop "message" payload) (str "");
    error = or_default (prop "error" payload) null;
  }

  abbrev finish_command : Option PendingCommand → String → Fields Num → Gateway Num → Gateway Num
  finish_command none request_id payload g = g
  finish_command (some p) request_id payload g =
      emit (resolve_command p.ticket (result_of request_id payload)) (record g {
        timers = cancel p.ticket g.timers;
        pending_commands = delete request_id g.pending_commands;
      })

  abbrev result_for : Option String → Fields Num → Gateway Num → Gateway Num
  result_for none payload g = g
  result_for (some request_id) payload g =
      finish_command (get request_id g.pending_commands) request_id payload g

  unfoldable pub handle_container_result : Fields Num → Gateway Num → Gateway Num
  handle_container_result payload g =
      result_for (filled (as_text (prop "requestId" payload))) payload g

  -- What an inspection's promise is resolved with.
  abbrev pub inspected_of : String → Fields Num → ContainerInspected Num
  inspected_of request_id payload = record {
    request_id = request_id;
    container = or_default (prop "container" payload) null;
    ok = truthy n (prop "ok" payload);
    error = or_default (prop "error" payload) null;
  }

  abbrev finish_inspect : Option PendingInspect → String → Fields Num → Gateway Num → Gateway Num
  finish_inspect none request_id payload g = g
  finish_inspect (some p) request_id payload g =
      emit (resolve_inspect p.ticket (inspected_of request_id payload)) (record g {
        timers = cancel p.ticket g.timers;
        pending_inspects = delete request_id g.pending_inspects;
      })

  abbrev inspected_for : Option String → Fields Num → Gateway Num → Gateway Num
  inspected_for none payload g = g
  inspected_for (some request_id) payload g =
      finish_inspect (get request_id g.pending_inspects) request_id payload g

  unfoldable pub handle_container_inspected : Fields Num → Gateway Num → Gateway Num
  handle_container_inspected payload g =
      inspected_for (filled (as_text (prop "requestId" payload))) payload g
