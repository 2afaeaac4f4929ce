-- ===== src/Gateway/State.antt =====
-- The gateway's fields, the sockets and timers that it shares with the runtime, and what it does to
-- them. A promise that waits for an agent is one ticket: its `resolve`, its `reject` and its timer
-- are made together. `log` records, newest first, what the gateway did to the outside.
use docksight.Base.{
  ℕ, String, Bool, true, false, List, [], ◌∷◌, Option, none, some, eqb, if◌then◌else◌,
}
use docksight.Dict.{Dict, empty, get, delete}
use docksight.Protocol.Envelope.{Envelope}
use docksight.Protocol.Container.{ContainerAction, ContainerSummary}
use docksight.Protocol.Messages.{AgentRegister, ContainerResult, ContainerInspected, LogsChunk}
use docksight.Inventory.{ContainerInventory, new_inventory, get_by_uuid, containers_of}
use docksight.HostMetrics.{HostMetrics, new_host_metrics}

-- WebSocket.readyState; `opened` is WebSocket.OPEN.
pub data ReadyState : Type 0 where
  connecting opened closing closed : ReadyState

abbrev pub is_opened : ReadyState → Bool
is_opened opened = true
is_opened _ = false

pub record AgentSocket : Type 0 where
  pub agent_uuid : Option String
  pub agent_id : Option String
  pub ready_state : ReadyState

pub record PendingList : Type 0 where
  pub ticket : ℕ

pub record PendingCommand : Type 0 where
  pub agent_uuid : String
  pub ticket : ℕ

pub record PendingInspect : Type 0 where
  pub agent_uuid : String
  pub ticket : ℕ

-- `on_chunk` names the callback.
pub record LogSubscriber : Type 0 where
  pub agent_uuid : String
  pub container_id : String
  pub on_chunk : ℕ

-- What the callback of a timer does.
pub data TimerTask : Type 0 where
  list_timeout : (agent_uuid host_id : String) → TimerTask
  command_timeout : (request_id : String) → ContainerAction → TimerTask
  inspect_timeout : (request_id : String) → TimerTask

pub data Effect (Num : Type 0) : Type 0 where
  sent : (client : ℕ) → Envelope Num → Effect Num
  resolve_list : (ticket : ℕ) → List (ContainerSummary Num) → Effect Num
  resolve_command : (ticket : ℕ) → ContainerResult Num → Effect Num
  reject_command : (ticket : ℕ) → String → Effect Num
  resolve_inspect : (ticket : ℕ) → ContainerInspected Num → Effect Num
  reject_inspect : (ticket : ℕ) → String → Effect Num
  chunk : (on_chunk : ℕ) → LogsChunk Num → Effect Num
  register_agent : (client : ℕ) → AgentRegister Num → Effect Num
  heartbeat : (uuid : String) → Effect Num
  mark_offline : (uuid : String) → Effect Num

pub record Gateway (Num : Type 0) : Type 0 where
  pub sockets : ℕ → AgentSocket
  pub sockets_by_uuid : Dict ℕ
  pub pending_lists : Dict PendingList
  pub pending_commands : Dict PendingCommand
  pub pending_inspects : Dict PendingInspect
  pub log_subscribers : Dict LogSubscriber
  pub inventory : ContainerInventory Num
  pub host_metrics : HostMetrics Num
  pub timers : List (ℕ × TimerTask)
  pub next_ticket : ℕ
  pub log : List (Effect Num)

-- The socket of an agent that has said nothing yet.
abbrev pub fresh_socket : AgentSocket
fresh_socket = record { agent_uuid = none; agent_id = none; ready_state = opened }

abbrev pub put_socket : ℕ → AgentSocket → (ℕ → AgentSocket) → ℕ → AgentSocket
put_socket c s sockets d = if eqb c d then s else sockets d

-- The task of a running timer.
unfoldable pub timer_of : ℕ → List (ℕ × TimerTask) → Option TimerTask
timer_of t [] = none
timer_of t ((u, task) ∷ timers) = if eqb u t then some task else timer_of t timers

-- clearTimeout
unfoldable pub cancel : ℕ → List (ℕ × TimerTask) → List (ℕ × TimerTask)
cancel t [] = []
cancel t ((u, task) ∷ timers) =
    let rest = cancel t timers in if eqb u t then rest else (u, task) ∷ rest

module _ {Num : Type 0} where
  unfoldable pub new_gateway : Gateway Num
  unfolding new_inventory new_host_metrics
  new_gateway = record {
    sockets = λ c. record { agent_uuid = none; agent_id = none; ready_state = connecting };
    sockets_by_uuid = empty;
    pending_lists = empty;
    pending_commands = empty;
    pending_inspects = empty;
    log_subscribers = empty;
    inventory = new_inventory;
    host_metrics = new_host_metrics;
    timers = [];
    next_ticket = 0;
    log = [];
  }

  abbrev pub emit : Effect Num → Gateway Num → Gateway Num
  emit e g = record g { log = e ∷ g.log }

  abbrev pub is_open : ℕ → Gateway Num → Bool
  is_open client g = is_opened (g.sockets client).ready_state

  -- `send`: what is not open gets nothing.
  unfoldable pub send : ℕ → Envelope Num → Gateway Num → Gateway Num
  send client envelope g = if is_open client g then emit (sent client envelope) g else g

  abbrev open_client : Option ℕ → Gateway Num → Option ℕ
  open_client none g = none
  open_client (some c) g = if is_open c g then some c else none

  -- The agent's socket, unless it is missing or not open.
  unfoldable pub client_of : String → Gateway Num → Option ℕ
  client_of agent_uuid g = open_client (get agent_uuid g.sockets_by_uuid) g

  -- `this.inventory.getByUuid(uuid)?.containers ?? []`
  abbrev pub cached : String → Gateway Num → List (ContainerSummary Num)
  cached agent_uuid g = containers_of (get_by_uuid agent_uuid g.inventory)

  -- Clears the timer, takes the entry out, and settles the promise.
  abbrev pub finish_list :
      String → PendingList → List (ContainerSummary Num) → Gateway Num → Gateway Num
  finish_list agent_uuid p containers g = emit (resolve_list p.ticket containers) (record g {
    timers = cancel p.ticket g.timers;
    pending_lists = delete agent_uuid g.pending_lists;
  })

  abbrev pub finish_if_pending :
      Option PendingList → String → List (ContainerSummary Num) → Gateway Num → Gateway Num
  finish_if_pending none agent_uuid containers g = g
  finish_if_pending (some p) agent_uuid containers g = finish_list agent_uuid p containers g

  -- A pending list request of the agent, if there is one, is answered with these containers.
  unfoldable pub resolve_pending_list :
      String → List (ContainerSummary Num) → Gateway Num → Gateway Num
  resolve_pending_list agent_uuid containers g =
      finish_if_pending (get agent_uuid g.pending_lists) agent_uuid containers g

  abbrev pub start_timer : TimerTask → Gateway Num → List (ℕ × TimerTask)
  start_timer task g = (g.next_ticket, task) ∷ g.timers
