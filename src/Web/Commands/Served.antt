-- ===== src/Web/Commands/Served.antt =====
-- A command of the page on its way: the request of the client, the guards and the DTO of its route,
-- the message to the agent and the agent's answer.
use docksight.Base.{ℕ, String, Bool, true, false, ◌≡◌, refl, ◌≢◌, [], ◌∷◌, none, some, subst}
use docksight.Dict.{get}
use docksight.Json.{Numbers, Fields, obj}
use docksight.Text.{is_blank}
use docksight.Protocol.Container.{ContainerAction, start, stop, restart, remove, pause, unpause}
use docksight.Gateway.State.{sent, resolve_command, timer_of, client_of}
use docksight.Gateway.Calls.{promised, command_envelope}
use docksight.Gateway.Handlers.{handle_container_result, result_of}
use docksight.Gateway.Routing.{request_id_of, command_answered}
use docksight.Agents.{Agent, AgentTable, find_by_id}
use docksight.Users.{admin, UserTable, Passwords}
use docksight.Auth.{JwtService, RequestWithUser, authenticate, authorize}
use docksight.Containers.{target, run_lifecycle_action}
use docksight.Http.{ok}
use docksight.Server.{
  action, command, Context, Server, is_public, required_roles, handle, serve, run_action,
}
use docksight.Server.Dto.{Validators, container_action_dto, container_remove_dto}
use docksight.Web.Commands.{Variables}
use docksight.Web.Commands.Report.{action_body}

-- The force that the agent is told: only a deletion has it.
unfoldable pub force_told : Variables → Bool
force_told x = elim x.action [
  | remove ↦ x.force
  | start ↦ false
  | stop ↦ false
  | restart ↦ false
  | pause ↦ false
  | unpause ↦ false
]

not_blank_full : (s : String) → is_blank s ≡ false → s ≢ ""
unfolding is_blank docksight.Text.trim docksight.Text.trim_start docksight.Text.trim_end
not_blank_full s e f = cc (subst (λ k. is_blank k ≡ false) f e)

module _ (adb : AgentTable) (udb : UserTable) (pw : Passwords) (jwt : JwtService) (n : Numbers)
    (v : Validators n.Num) (week_before : ℕ → ℕ) where
  open n use {Num}

  -- The body that the client makes passes the DTO of its action's route.
  handle-action_body :
      (x : Variables) (c : Context Num) (q : RequestWithUser) (s : Server adb udb Num)
      → x.host_id ≢ ""
      → handle adb udb pw jwt n v week_before
          (action x.action x.container_id (obj (action_body x)))
          c
          q
          s
        ≡ run_action adb udb pw jwt n v week_before x.container_id x.host_id x.action
            (force_told x)
            c.request_id
            s
  unfolding handle container_action_dto container_remove_dto force_told
  handle-action_body x c q s full = go x.action refl
    where
      go :
          (a : ContainerAction)
          → x.action ≡ a
          → handle adb udb pw jwt n v week_before
              (action x.action x.container_id (obj (action_body x)))
              c
              q
              s
            ≡ run_action adb udb pw jwt n v week_before x.container_id x.host_id x.action
                (force_told x)
                c.request_id
                s
      go remove e =
          rw
            (
              e,
              v.is_string_text x.host_id,
              v.is_not_empty_text x.host_id full,
              v.is_boolean_bool x.force,
            )
            refl
      go start e = rw (e, v.is_string_text x.host_id, v.is_not_empty_text x.host_id full) refl
      go stop e = rw (e, v.is_string_text x.host_id, v.is_not_empty_text x.host_id full) refl
      go restart e = rw (e, v.is_string_text x.host_id, v.is_not_empty_text x.host_id full) refl
      go pause e = rw (e, v.is_string_text x.host_id, v.is_not_empty_text x.host_id full) refl
      go unpause e = rw (e, v.is_string_text x.host_id, v.is_not_empty_text x.host_id full) refl

  -- A command that the client sends for an administrator, on a known host whose agent has an open
  -- socket and with ids that are not blank: the server answers with a promise and writes one message
  -- to that socket, which names the action and the container and has `force` for a deletion alone; no
  -- row changes; and the agent's answer to this request resolves that promise with its payload, after
  -- which neither the command nor its timer is left.
  pub command_end_to_end :
      (x : Variables) (c : Context Num) (r q : RequestWithUser) (s : Server adb udb Num) (a : Agent)
      (socket : ℕ) (payload : Fields Num)
      → authenticate pw jwt true false r ≡ ok q
      → authorize true (admin ∷ []) q ≡ ok tt
      → is_blank x.host_id ≡ false
      → is_blank x.container_id ≡ false
      → find_by_id adb x.host_id s.agents ≡ some a
      → client_of a.uuid s.gateway ≡ some socket
      → request_id_of payload ≡ some c.request_id
      → let (t, answer) =
          serve adb udb pw jwt n v week_before
            (action x.action x.container_id (obj (action_body x)))
            c
            r
            s in
        let ticket = s.gateway.next_ticket in
        let done = handle_container_result n payload t.gateway in
        (answer ≡ ok (command (promised ticket)))
        × (t.agents ≡ s.agents)
        × (t.users ≡ s.users)
        × (done.log
            ≡ resolve_command ticket (result_of n c.request_id payload)
              ∷ sent socket (command_envelope x.action c.request_id x.container_id (force_told x))
              ∷ s.gateway.log)
        × (get c.request_id done.pending_commands ≡ none)
        × (timer_of ticket done.timers ≡ none)
  unfolding serve is_public required_roles run_lifecycle_action target
  command_end_to_end x c r q s a socket payload let_in allowed host_id id known open_socket named =
      let (promise, logged, gone, timer) =
        command_answered n a.uuid a.id x.action x.container_id (force_told x) c.request_id s.gateway
          socket payload open_socket named in
      rw
        (
          let_in,
          allowed,
          handle-action_body x c q s (not_blank_full x.host_id host_id),
          known,
          host_id,
          id,
          promise,
        )
        (refl, refl, refl, logged, gone, timer)
