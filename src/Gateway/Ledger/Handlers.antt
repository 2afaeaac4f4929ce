-- ===== src/Gateway/Ledger/Handlers.antt =====
-- The moves of the message handlers and of the timers.
use docksight.Base.{ℕ, ◌≡◌, refl, Option, none, some, arith, ◌==◌, ◌&&◌, Option-cases, inl, inr}
use docksight.Dict.{get}
use docksight.Json.{Numbers, obj, Fields, filled, as_text, prop, truthy}
use docksight.Protocol.Envelope.{Envelope, is_message_envelope}
use docksight.Protocol.Messages.{
  AgentRegistered, agent_register, agent_heartbeat, logs_chunk, metrics_host,
}
use docksight.Protocol.Container.{container_listed, container_result, container_inspected}
use docksight.Inventory
use docksight.Inventory.{or_found, containers_of}
use docksight.Parser.{parse_container_listed_payload}
use docksight.Gateway.State.{
  Gateway, TimerTask, list_timeout, command_timeout, inspect_timeout, resolve_list, resolve_command,
  reject_command, resolve_inspect, reject_inspect, timer_of,
}
use docksight.Gateway.Handlers.{
  handle_registered, handle_heartbeat, handle_logs_chunk, handle_register, handle_container_listed,
  handle_container_result, handle_container_inspected, result_of, inspected_of,
}
use docksight.Gateway.Messages.{
  Runtime, RawData, handle_host_metrics, handle_message, decode_raw_data, dispatch,
}
use docksight.Gateway.Step.{fire_timer, run_task, command_timed_out, inspect_timed_out}
use docksight.Gateway.Ledger.{Balanced}
use docksight.Gateway.Ledger.View.{view, settle_list, settle_command, settle_inspect}
use docksight.Gateway.Ledger.Calls.{
  Makes, Makes-same, Move-Makes, Makes-trans, Makes-send, Makes-if, resolve_pending_list-Makes,
}

module _ {Num : Type 0} where
  pub handle_registered-Makes :
      (c : ℕ) (a : AgentRegistered) (g : Gateway Num) → Makes g (handle_registered c a g)
  unfolding handle_registered
  handle_registered-Makes c a g = Makes-send c _ (Makes-send c _ (Makes-same refl))

  handle_heartbeat-Makes :
      (c : ℕ) (fs : Fields Num) (g : Gateway Num) → Makes g (handle_heartbeat c fs g)
  unfolding handle_heartbeat
  handle_heartbeat-Makes c fs g = elim (Option-cases (filled (as_text (prop "uuid" fs)))) [
    | inl e ↦ rw e (Makes-same refl)
    | inr (u, e) ↦ rw e (Makes-same refl)
  ]

  handle_logs_chunk-Makes : (fs : Fields Num) (g : Gateway Num) → Makes g (handle_logs_chunk fs g)
  unfolding handle_logs_chunk
  handle_logs_chunk-Makes fs g = elim (Option-cases (filled (as_text (prop "requestId" fs)))) [
    | inl e ↦ rw e (Makes-same refl)
    | inr (r, e) ↦ elim (Option-cases (get r g.log_subscribers)) [
      | inl f ↦ rw (e, f) (Makes-same refl)
      | inr (s, f) ↦ rw (e, f) (Makes-same refl)
    ]
  ]

module _ (n : Numbers) where
  open n use {Num}

  handle_register-Makes :
      (c : ℕ) (fs : Fields Num) (g : Gateway Num) → Makes g (handle_register n c fs g)
  unfolding handle_register
  handle_register-Makes c fs g =
      Makes-if
        (truthy n (prop "uuid" fs) && truthy n (prop "hostname" fs) && truthy n (prop "os" fs))
        (λ _. Makes-same refl) (λ _. Makes-send c _ (Makes-same refl))

  handle_container_listed-Makes :
      (c : ℕ) (fs : Fields Num) (now : ℕ) (g : Gateway Num)
      → Makes g (handle_container_listed n c fs now g)
  unfolding handle_container_listed
  handle_container_listed-Makes c fs now g =
      let parsed = parse_container_listed_payload n (obj fs) in
      elim (Option-cases (filled (g.sockets c).agent_uuid)) [
        | inl e ↦ rw e (Makes-same refl)
        | inr (u, e) ↦
            rw e (Makes-trans (Makes-same refl) (resolve_pending_list-Makes u parsed.containers _))
      ]

  handle_container_result-Makes :
      (fs : Fields Num) (g : Gateway Num) → Makes g (handle_container_result n fs g)
  unfolding handle_container_result
  handle_container_result-Makes fs g =
      elim (Option-cases (filled (as_text (prop "requestId" fs)))) [
        | inl e ↦ rw e (Makes-same refl)
        | inr (r, e) ↦ elim (Option-cases (get r g.pending_commands)) [
          | inl f ↦ rw (e, f) (Makes-same refl)
          | inr (p, f) ↦
              rw (e, f)
                (Move-Makes (
                  settle_command p.ticket (resolve_command p.ticket (result_of n r fs)) g refl r
                    (rw f refl)))
        ]
      ]

  handle_container_inspected-Makes :
      (fs : Fields Num) (g : Gateway Num) → Makes g (handle_container_inspected n fs g)
  unfolding handle_container_inspected
  handle_container_inspected-Makes fs g =
      elim (Option-cases (filled (as_text (prop "requestId" fs)))) [
        | inl e ↦ rw e (Makes-same refl)
        | inr (r, e) ↦ elim (Option-cases (get r g.pending_inspects)) [
          | inl f ↦ rw (e, f) (Makes-same refl)
          | inr (p, f) ↦
              rw (e, f)
                (Move-Makes (
                  settle_inspect p.ticket (resolve_inspect p.ticket (inspected_of n r fs)) g refl r
                    (rw f refl)))
        ]
      ]

module _ (n : Numbers) (r : Runtime n) where
  open n use {Num}

  handle_host_metrics-Makes :
      (c : ℕ) (fs : Fields Num) (now : ℕ) (g : Gateway Num)
      → Makes g (handle_host_metrics n r c fs now g)
  unfolding handle_host_metrics
  handle_host_metrics-Makes c fs now g =
      elim (Option-cases (filled (or_found (g.sockets c).agent_uuid (as_text (prop "uuid" fs))))) [
        | inl e ↦ rw e (Makes-same refl)
        | inr (u, e) ↦ rw e (
            Makes-if (truthy n (prop "cpu" fs) && truthy n (prop "memory" fs))
              (λ _. Makes-same refl) (λ _. Makes-same refl))
      ]

  dispatch-Makes :
      (c : ℕ) (e : Envelope Num) (now : ℕ) (g : Gateway Num) → Makes g (dispatch n r c e now g)
  unfolding dispatch
  dispatch-Makes c e now g =
      Makes-if (e.type == agent_register) (λ _. handle_register-Makes n c e.payload g)
        λ _.
          Makes-if (e.type == agent_heartbeat) (λ _. handle_heartbeat-Makes c e.payload g)
            λ _.
              Makes-if (e.type == container_listed)
                (λ _. handle_container_listed-Makes n c e.payload now g)
                λ _.
                  Makes-if (e.type == container_result)
                    (λ _. handle_container_result-Makes n e.payload g)
                    λ _.
                      Makes-if (e.type == container_inspected)
                        (λ _. handle_container_inspected-Makes n e.payload g)
                        λ _.
                          Makes-if (e.type == logs_chunk) (λ _. handle_logs_chunk-Makes e.payload g)
                            λ _.
                              Makes-if (e.type == metrics_host)
                                (λ _. handle_host_metrics-Makes c e.payload now g)
                                λ _. Makes-same refl

  pub handle_message-Makes :
      (c : ℕ) (raw : RawData) (now : ℕ) (g : Gateway Num) → Makes g (handle_message n r c raw now g)
  unfolding handle_message
  handle_message-Makes c raw now g = elim (Option-cases (r.parse_json (decode_raw_data raw))) [
    | inl e ↦ rw e (Makes-send c _ (Makes-same refl))
    | inr (v, e) ↦ elim (Option-cases (is_message_envelope v)) [
      | inl f ↦ rw (e, f) (Makes-same refl)
      | inr (m, f) ↦ rw (e, f) (dispatch-Makes c m now g)
    ]
  ]

module _ {Num : Type 0} where
  fire-Makes :
      (task : Option TimerTask) (t : ℕ) (g : Gateway Num)
      → timer_of t g.timers ≡ task
      → Balanced (view g)
      → Makes g (run_task task t g)
  fire-Makes none t g e b = Makes-same refl
  fire-Makes (some (list_timeout u h)) t g e b = Move-Makes (
      settle_list t (resolve_list t (containers_of (Inventory.get_by_host_id h g.inventory))) g refl
        u (ground (arith, b.timed t)))
  fire-Makes (some (command_timeout q a)) t g e b = Move-Makes (
      settle_command t (reject_command t (command_timed_out a)) g refl q
        (ground (arith, b.timed t)))
  fire-Makes (some (inspect_timeout q)) t g e b =
      Move-Makes
        (settle_inspect t (reject_inspect t inspect_timed_out) g refl q (ground (arith, b.timed t)))

  -- A timer that runs out settles the request that it stands for.
  pub fire_timer-Makes : (t : ℕ) (g : Gateway Num) → Balanced (view g) → Makes g (fire_timer t g)
  unfolding fire_timer
  fire_timer-Makes t g b = fire-Makes (timer_of t g.timers) t g refl b
