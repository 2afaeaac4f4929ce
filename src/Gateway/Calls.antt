-- ===== src/Gateway/Calls.antt =====
-- The calls that the rest of the server makes: requestContainerList, sendContainerCommand,
-- inspectContainer, startLogStream and stopLogStream. The random request id is an argument.
use docksight.Base.{ℕ, suc, String, Bool, List, Option, none, some, or_else}
use docksight.Dict.{get, set, delete}
use docksight.Json.{Numbers, Fields, bool, num, str, end, field}
use docksight.Protocol.Envelope.{Envelope, create_envelope}
use docksight.Protocol.Container.{
  ContainerAction, remove, ContainerSummary, command_type, container_list, container_inspect,
}
use docksight.Protocol.Messages.{
  logs_subscribe, logs_unsubscribe, ContainerResult, ContainerInspected,
}
use docksight.Inventory
use docksight.Inventory.{containers_of}
use docksight.Gateway.State.{
  Gateway, LogSubscriber, list_timeout, command_timeout, inspect_timeout, send, client_of, cached,
  resolve_pending_list, start_timer,
}

-- An answer at once, an exception, or a promise that waits for the agent.
pub data Answer (A : Type 0) : Type 0 where
  returned : A → Answer A
  thrown : String → Answer A
  promised : (ticket : ℕ) → Answer A

module _ {Num : Type 0} where
  abbrev pub remember : String → String → Gateway Num → Gateway Num
  remember host_id agent_uuid g = record g {
    inventory = Inventory.remember_host host_id agent_uuid g.inventory;
  }

  abbrev pub list_request : Envelope Num
  list_request = create_envelope container_list end

  -- The body of the promise: an older request is answered first.
  abbrev open_list_request : ℕ → String → String → Gateway Num → Gateway Num
  open_list_request client agent_uuid host_id g = send client list_request (record g {
    timers = start_timer (list_timeout agent_uuid host_id) g;
    pending_lists = set agent_uuid (record { ticket = g.next_ticket }) g.pending_lists;
    next_ticket = suc g.next_ticket;
  })

  abbrev request_list_from :
      Option ℕ → String → String → Gateway Num → Gateway Num × Answer (List (ContainerSummary Num))
  request_list_from none agent_uuid host_id g =
      (g, returned (containers_of (Inventory.get_by_host_id host_id g.inventory)))
  request_list_from (some client) agent_uuid host_id g =
      let h = resolve_pending_list agent_uuid (cached agent_uuid g) g in
      (open_list_request client agent_uuid host_id h, promised h.next_ticket)

  unfoldable pub request_container_list :
      String → String → Gateway Num → Gateway Num × Answer (List (ContainerSummary Num))
  request_container_list agent_uuid host_id g =
      let h = remember host_id agent_uuid g in
      request_list_from (client_of agent_uuid h) agent_uuid host_id h

  -- Only `remove` carries `force`.
  abbrev force_field : ContainerAction → Bool → Fields Num
  force_field remove force = field "force" (bool force) end
  force_field _ force = end

  unfoldable pub command_envelope : ContainerAction → String → String → Bool → Envelope Num
  command_envelope action request_id container_id force = create_envelope (command_type action) (
      field "requestId" (str request_id)
        (field "containerId" (str container_id) (force_field action force)))

  abbrev send_command_to :
      Option ℕ
      → String
      → ContainerAction
      → String
      → Bool
      → String
      → Gateway Num
      → Gateway Num × Answer (ContainerResult Num)
  send_command_to none agent_uuid action container_id force request_id g =
      (g, thrown "Agent is not connected")
  send_command_to (some client) agent_uuid action container_id force request_id g = (
    send client (command_envelope action request_id container_id force) (record g {
      timers = start_timer (command_timeout request_id action) g;
      pending_commands =
          set request_id (record { agent_uuid = agent_uuid; ticket = g.next_ticket })
            g.pending_commands;
      next_ticket = suc g.next_ticket;
    }),
    promised g.next_ticket,
  )

  unfoldable pub send_container_command :
      String
      → String
      → ContainerAction
      → String
      → Bool
      → String
      → Gateway Num
      → Gateway Num × Answer (ContainerResult Num)
  send_container_command agent_uuid host_id action container_id force request_id g =
      let h = remember host_id agent_uuid g in
      send_command_to (client_of agent_uuid h) agent_uuid action container_id force request_id h

  abbrev pub inspect_envelope : String → String → Envelope Num
  inspect_envelope request_id container_id =
      create_envelope container_inspect
        (field "requestId" (str request_id) (field "containerId" (str container_id) end))

  abbrev send_inspect_to :
      Option ℕ
      → String
      → String
      → String
      → Gateway Num
      → Gateway Num × Answer (ContainerInspected Num)
  send_inspect_to none agent_uuid container_id request_id g = (g, thrown "Agent is not connected")
  send_inspect_to (some client) agent_uuid container_id request_id g = (
    send client (inspect_envelope request_id container_id) (record g {
      timers = start_timer (inspect_timeout request_id) g;
      pending_inspects =
          set request_id (record { agent_uuid = agent_uuid; ticket = g.next_ticket })
            g.pending_inspects;
      next_ticket = suc g.next_ticket;
    }),
    promised g.next_ticket,
  )

  unfoldable pub inspect_container :
      String
      → String
      → String
      → String
      → Gateway Num
      → Gateway Num × Answer (ContainerInspected Num)
  inspect_container agent_uuid host_id container_id request_id g =
      let h = remember host_id agent_uuid g in
      send_inspect_to (client_of agent_uuid h) agent_uuid container_id request_id h

  abbrev unsubscribe_at : Option ℕ → String → Gateway Num → Gateway Num
  unsubscribe_at none request_id g = g
  unsubscribe_at (some client) request_id g =
      send client (create_envelope logs_unsubscribe (field "requestId" (str request_id) end)) g

  abbrev stop_subscriber : Option LogSubscriber → String → Gateway Num → Gateway Num
  stop_subscriber none request_id g = g
  stop_subscriber (some s) request_id g =
      let h = record g { log_subscribers = delete request_id g.log_subscribers } in
      unsubscribe_at (client_of s.agent_uuid h) request_id h

  unfoldable pub stop_log_stream : String → Gateway Num → Gateway Num
  stop_log_stream request_id g = stop_subscriber (get request_id g.log_subscribers) request_id g

-- The options of startLogStream; a missing `tail` is 100, a missing `follow` is true.
pub record LogStreamOptions (Num : Type 0) : Type 0 where
  pub agent_uuid : String
  pub host_id : String
  pub container_id : String
  pub tail : Option Num
  pub follow : Option Bool
  pub on_chunk : ℕ

module _ (n : Numbers) where
  open n use {Num, of_ℕ}

  abbrev subscribe_envelope : LogStreamOptions Num → String → Envelope Num
  subscribe_envelope o request_id = create_envelope logs_subscribe (
      field "requestId" (str request_id) (
        field "containerId" (str o.container_id) (
          field "tail" (num (or_else o.tail (of_ℕ 100)))
            (field "follow" (bool (or_else o.follow Bool.true)) end))))

  abbrev subscribe_at :
      Option ℕ → LogStreamOptions Num → String → Gateway Num → Gateway Num × Answer String
  subscribe_at none o request_id g = (g, thrown "Agent is not connected")
  subscribe_at (some client) o request_id g = (
    send client (subscribe_envelope o request_id) (record g {
      log_subscribers =
          set request_id
            (record {
              agent_uuid = o.agent_uuid;
              container_id = o.container_id;
              on_chunk = o.on_chunk;
            })
            g.log_subscribers;
    }),
    returned request_id,
  )

  unfoldable pub start_log_stream :
      LogStreamOptions Num → String → Gateway Num → Gateway Num × Answer String
  start_log_stream o request_id g =
      let h = remember o.host_id o.agent_uuid g in
      subscribe_at (client_of o.agent_uuid h) o request_id h
