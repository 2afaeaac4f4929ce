-- ===== src/Gateway/Disconnect.antt =====
-- handleDisconnect and the three loops that it makes over what waits for the agent.
use docksight.Base.{String, List, [], ◌∷◌, Option, none, some, ◌==◌, ℕ, if◌then◌else◌}
use docksight.Dict.{delete, entries}
use docksight.Json.{filled}
use docksight.Gateway.State.{
  Gateway, PendingCommand, PendingInspect, LogSubscriber, reject_command, reject_inspect,
  mark_offline, emit, cancel, cached, resolve_pending_list,
}

abbrev pub command_lost : String
command_lost = "Agent disconnected before command completed"

abbrev pub inspect_lost : String
inspect_lost = "Agent disconnected before inspect completed"

module _ {Num : Type 0} where
  abbrev pub drop_command : String → PendingCommand → String → Gateway Num → Gateway Num
  drop_command request_id p error g = emit (reject_command p.ticket error) (record g {
    timers = cancel p.ticket g.timers;
    pending_commands = delete request_id g.pending_commands;
  })

  -- The loop of rejectPendingCommandsForAgent, over the entries that it finds.
  unfoldable pub reject_commands :
      List (String × PendingCommand) → String → String → Gateway Num → Gateway Num
  reject_commands [] agent_uuid error g = g
  reject_commands ((request_id, p) ∷ es) agent_uuid error g =
      reject_commands es agent_uuid error
        (if p.agent_uuid == agent_uuid then drop_command request_id p error g else g)

  unfoldable pub reject_pending_commands_for_agent : String → String → Gateway Num → Gateway Num
  reject_pending_commands_for_agent agent_uuid error g =
      reject_commands (entries g.pending_commands) agent_uuid error g

  abbrev pub drop_inspect : String → PendingInspect → String → Gateway Num → Gateway Num
  drop_inspect request_id p error g = emit (reject_inspect p.ticket error) (record g {
    timers = cancel p.ticket g.timers;
    pending_inspects = delete request_id g.pending_inspects;
  })

  unfoldable pub reject_inspects :
      List (String × PendingInspect) → String → String → Gateway Num → Gateway Num
  reject_inspects [] agent_uuid error g = g
  reject_inspects ((request_id, p) ∷ es) agent_uuid error g =
      reject_inspects es agent_uuid error
        (if p.agent_uuid == agent_uuid then drop_inspect request_id p error g else g)

  unfoldable pub reject_pending_inspects_for_agent : String → String → Gateway Num → Gateway Num
  reject_pending_inspects_for_agent agent_uuid error g =
      reject_inspects (entries g.pending_inspects) agent_uuid error g

  abbrev pub drop_subscriber : String → Gateway Num → Gateway Num
  drop_subscriber request_id g = record g { log_subscribers = delete request_id g.log_subscribers }

  unfoldable pub unsubscribe_logs :
      List (String × LogSubscriber) → String → Gateway Num → Gateway Num
  unsubscribe_logs [] agent_uuid g = g
  unsubscribe_logs ((request_id, s) ∷ es) agent_uuid g =
      unsubscribe_logs es agent_uuid
        (if s.agent_uuid == agent_uuid then drop_subscriber request_id g else g)

  unfoldable pub unsubscribe_logs_for_agent : String → Gateway Num → Gateway Num
  unsubscribe_logs_for_agent agent_uuid g =
      unsubscribe_logs (entries g.log_subscribers) agent_uuid g

  abbrev pub forget_socket : String → Gateway Num → Gateway Num
  forget_socket uuid g = record g { sockets_by_uuid = delete uuid g.sockets_by_uuid }

  abbrev pub disconnect_agent : Option String → Gateway Num → Gateway Num
  disconnect_agent none g = g
  disconnect_agent (some uuid) g = emit (mark_offline uuid) (
      unsubscribe_logs_for_agent uuid (
        reject_pending_inspects_for_agent uuid inspect_lost (
          reject_pending_commands_for_agent uuid command_lost
            (resolve_pending_list uuid (cached uuid g) (forget_socket uuid g)))))

  -- An agent that never said its uuid leaves nothing behind.
  unfoldable pub handle_disconnect : ℕ → Gateway Num → Gateway Num
  handle_disconnect client g = disconnect_agent (filled (g.sockets client).agent_uuid) g
