-- ===== src/Gateway/Routing.antt =====
-- Which request an agent's message answers.
use docksight.Base.{
  ℕ, String, Bool, true, ◌≡◌, refl, Option, none, some, arith, ◌==◌, eq_refl, if◌then◌else◌, eqb,
  eqb_refl, ◌∷◌, Option-cases, inl, inr,
}
use docksight.Dict.{get, get-set, get-delete}
use docksight.Json.{Numbers, Fields, filled, as_text, prop}
use docksight.Protocol.Envelope.{Envelope}
use docksight.Protocol.Container.{ContainerAction}
use docksight.Gateway.State.{
  Gateway, PendingCommand, LogSubscriber, resolve_command, chunk, sent, timer_of, client_of, send,
  emit, is_open, command_timeout,
}
use docksight.Gateway.Calls.{
  send_container_command, command_envelope, promised, thrown, remember, stop_log_stream,
}
use docksight.Gateway.Handlers.{handle_container_result, handle_logs_chunk, result_of, chunk_of}
use docksight.Gateway.Ledger.View.{timer_of-cancel}

-- The request id that a payload names, if it is a text that is not empty.
abbrev pub request_id_of : {Num : Type 0} → Fields Num → Option String
request_id_of payload = filled (as_text (prop "requestId" payload))

module _ (n : Numbers) where
  open n use {Num}

  -- A result settles the command with its request id, and that command alone: the promise is
  -- resolved with the payload, the request and its timer are gone, and every other command, every
  -- inspection, every list request and every log stream is as it was.
  pub handle_container_result_lem :
      (payload : Fields Num) (g : Gateway Num) (q : String) (p : PendingCommand)
      → request_id_of payload ≡ some q
      → get q g.pending_commands ≡ some p
      → let h = handle_container_result n payload g in
        (h.log ≡ resolve_command p.ticket (result_of n q payload) ∷ g.log)
        × ((k : String)
            → get k h.pending_commands ≡ (if q == k then none else get k g.pending_commands))
        × ((t : ℕ) → timer_of t h.timers ≡ (if eqb p.ticket t then none else timer_of t g.timers))
        × (h.pending_lists ≡ g.pending_lists)
        × (h.pending_inspects ≡ g.pending_inspects)
        × (h.log_subscribers ≡ g.log_subscribers)
  unfolding handle_container_result
  handle_container_result_lem payload g q p e f =
      rw (e, f)
        (
          refl,
          λ k. get-delete q k g.pending_commands,
          λ t. timer_of-cancel p.ticket t g.timers,
          refl,
          refl,
          refl,
        )

  -- A result whose request id names no waiting command changes nothing.
  pub handle_container_result-unknown :
      (payload : Fields Num) (g : Gateway Num) (q : String)
      → request_id_of payload ≡ some q
      → get q g.pending_commands ≡ none
      → handle_container_result n payload g ≡ g
  unfolding handle_container_result
  handle_container_result-unknown payload g q e f = rw (e, f) refl

  -- So a second result for the same request is ignored.
  pub handle_container_result_twice :
      (payload later : Fields Num) (g : Gateway Num) (q : String) (p : PendingCommand)
      → request_id_of payload ≡ some q
      → request_id_of later ≡ some q
      → get q g.pending_commands ≡ some p
      → handle_container_result n later (handle_container_result n payload g)
        ≡ handle_container_result n payload g
  handle_container_result_twice payload later g q p e l f =
      handle_container_result-unknown later _ q l
        (ground (arith, (handle_container_result_lem payload g q p e f).1 q, eq_refl q))

module _ {Num : Type 0} where
  send_open :
      (c : ℕ) (e : Envelope Num) (g : Gateway Num)
      → is_open c g ≡ true
      → send c e g ≡ emit (sent c e) g
  unfolding send
  send_open c e g h = rw h refl

  -- The socket that `client_of` answers is open.
  pub client_of-is_open :
      (u : String) (g : Gateway Num) {c : ℕ} → client_of u g ≡ some c → is_open c g ≡ true
  unfolding client_of
  client_of-is_open u g h = ground arith

  pub client_of-remember :
      (u h : String) (g : Gateway Num) → client_of u (remember h u g) ≡ client_of u g
  unfolding client_of
  client_of-remember u h g = elim (Option-cases (get u g.sockets_by_uuid)) [
    | inl e ↦ rw e refl
    | inr (c, e) ↦ rw e refl
  ]

  get-stop_log_stream :
      (q : String) (g : Gateway Num) → get q (stop_log_stream q g).log_subscribers ≡ none
  unfolding stop_log_stream send client_of
  get-stop_log_stream q g = elim (Option-cases (get q g.log_subscribers)) [
    | inl e ↦ rw e e
    | inr (s, e) ↦ rw e (ground (arith, get-delete q q g.log_subscribers, eq_refl q))
  ]

  -- A chunk goes to the subscriber of its request id and to no other, and changes nothing else.
  pub handle_logs_chunk_lem :
      (payload : Fields Num) (g : Gateway Num) (q : String) (s : LogSubscriber)
      → request_id_of payload ≡ some q
      → get q g.log_subscribers ≡ some s
      → handle_logs_chunk payload g ≡ emit (chunk s.on_chunk (chunk_of q payload)) g
  unfolding handle_logs_chunk
  handle_logs_chunk_lem payload g q s e f = rw (e, f) refl

  -- A command to an agent whose socket is open goes out on that socket, once, and waits under its
  -- request id with a running timer and a ticket of its own; other commands are as they were.
  pub send_container_command_lem :
      (u h : String) (a : ContainerAction) (cid : String) (force : Bool) (q : String)
      (g : Gateway Num) (c : ℕ)
      → client_of u g ≡ some c
      → let (k, answer) = send_container_command u h a cid force q g in
        (answer ≡ promised g.next_ticket)
        × (k.log ≡ sent c (command_envelope a q cid force) ∷ g.log)
        × ((j : String)
            → get j k.pending_commands ≡ (
                if q == j
                then some (record { agent_uuid = u; ticket = g.next_ticket })
                else get j g.pending_commands))
        × (timer_of g.next_ticket k.timers ≡ some (command_timeout q a))
  unfolding send_container_command timer_of send
  send_container_command_lem u h a cid force q g c e =
      let opened = client_of-is_open u g e in
      let new : PendingCommand = record { agent_uuid = u; ticket = g.next_ticket } in
      rw (client_of-remember u h g, e)
        (
          refl,
          ground (arith, opened),
          λ j. ground (arith, opened, get-set q j new g.pending_commands),
          ground (arith, opened, eqb_refl g.next_ticket),
        )

  -- Without an open socket the command is refused: nothing is sent, and nothing waits.
  pub send_container_command-closed :
      (u h : String) (a : ContainerAction) (cid : String) (force : Bool) (q : String)
      (g : Gateway Num)
      → client_of u g ≡ none
      → let (k, answer) = send_container_command u h a cid force q g in
        (answer ≡ thrown "Agent is not connected")
        × (k.log ≡ g.log)
        × (k.pending_commands ≡ g.pending_commands)
        × (k.timers ≡ g.timers)
  unfolding send_container_command
  send_container_command-closed u h a cid force q g e =
      rw (client_of-remember u h g, e) (refl, refl, refl, refl)

  -- Once a log stream is stopped its subscriber is gone, and no chunk for it is delivered any more.
  pub stop_log_stream-silences :
      (q : String) (payload : Fields Num) (g : Gateway Num)
      → request_id_of payload ≡ some q
      → handle_logs_chunk payload (stop_log_stream q g) ≡ stop_log_stream q g
  unfolding handle_logs_chunk
  stop_log_stream-silences q payload g e = rw (e, get-stop_log_stream q g) refl

module _ (n : Numbers) where
  open n use {Num}

  -- A command and the agent's answer to it: the promise that the caller got is resolved with the
  -- answer's payload, by the one message that was sent, and nothing waits under its request id.
  pub command_answered :
      (u h : String) (a : ContainerAction) (cid : String) (force : Bool) (q : String)
      (g : Gateway Num) (c : ℕ) (payload : Fields Num)
      → client_of u g ≡ some c
      → request_id_of payload ≡ some q
      → let (k, answer) = send_container_command u h a cid force q g in
        let done = handle_container_result n payload k in
        (answer ≡ promised g.next_ticket)
        × (done.log
            ≡ resolve_command g.next_ticket (result_of n q payload)
              ∷ sent c (command_envelope a q cid force)
              ∷ g.log)
        × (get q done.pending_commands ≡ none)
        × (timer_of g.next_ticket done.timers ≡ none)
  command_answered u h a cid force q g c payload e f =
      let (answered, sent_once, stored, timer) =
        send_container_command_lem u h a cid force q g c e in
      let p : PendingCommand = record { agent_uuid = u; ticket = g.next_ticket } in
      let k = (send_container_command u h a cid force q g).0 in
      let waits : get q k.pending_commands ≡ some p = ground (arith, stored q, eq_refl q) in
      let (l, rest, clock, _, _, _) = handle_container_result_lem n payload k q p f waits in
      (
        answered,
        ground (arith, l, sent_once),
        ground (arith, rest q, eq_refl q),
        ground (arith, clock g.next_ticket, eqb_refl g.next_ticket),
      )
