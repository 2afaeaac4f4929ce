-- ===== src/Gateway/Cleanup.antt =====
-- What a disconnect leaves behind.
use docksight.Base.{
  ℕ, String, Bool, ◌≡◌, refl, Option, none, some, arith, ◌==◌, eq_iff, if◌then◌else◌, List, [], ◌∷◌,
  Option-cases, inl, inr,
}
use docksight.Dict.{get, entries, get-delete, any_at, passes, any_at-entries}
use docksight.Json.{filled}
use docksight.Protocol.Container.{ContainerSummary}
use docksight.Gateway.State.{
  Gateway, PendingCommand, PendingInspect, LogSubscriber, cached, resolve_pending_list,
}
use docksight.Gateway.Disconnect.{
  drop_command, drop_inspect, drop_subscriber, reject_commands, reject_inspects, unsubscribe_logs,
  reject_pending_commands_for_agent, reject_pending_inspects_for_agent, unsubscribe_logs_for_agent,
  handle_disconnect, forget_socket, command_lost, inspect_lost,
}

-- The value, unless it passes the test.
abbrev pub unless {ℓ} : {V : Type ℓ} → (V → Bool) → Option V → Option V
unless q none = none
unless q (some v) = if q v then none else some v

unless-passes {ℓ} :
    {V : Type ℓ} (q : V → Bool) (o : Option V) → (if passes q o then none else o) ≡ unless q o
unless-passes q none = refl
unless-passes q (some v) = refl

module _ {Num : Type 0} where
  -- The part of a gateway that the loops do not touch.
  abbrev Keeps : Gateway Num → Gateway Num → Type 0
  Keeps g h =
      (h.sockets_by_uuid ≡ g.sockets_by_uuid)
      × (h.pending_lists ≡ g.pending_lists)
      × (h.sockets ≡ g.sockets)

  reject_commands-Keeps :
      (es : List (String × PendingCommand)) (u error : String) (g : Gateway Num)
      → let h = reject_commands es u error g in
        Keeps g h
        × (h.pending_inspects ≡ g.pending_inspects)
        × (h.log_subscribers ≡ g.log_subscribers)
  unfolding reject_commands
  reject_commands-Keeps [] u error g = ((refl, refl, refl), refl, refl)
  reject_commands-Keeps ((r, c) ∷ es) u error g = ground (
    arith,
    reject_commands-Keeps es u error (drop_command r c error g),
    reject_commands-Keeps es u error g,
  )

  get-reject_commands :
      (q : String) (es : List (String × PendingCommand)) (u error : String) (g : Gateway Num)
      → get q (reject_commands es u error g).pending_commands
        ≡ (if any_at q (λ p. p.agent_uuid == u) es then none else get q g.pending_commands)
  unfolding reject_commands
  get-reject_commands q [] u error g = refl
  get-reject_commands q ((r, c) ∷ es) u error g = ground (
    arith,
    get-reject_commands q es u error (drop_command r c error g),
    get-reject_commands q es u error g,
    get-delete r q g.pending_commands,
  )

  reject_inspects-Keeps :
      (es : List (String × PendingInspect)) (u error : String) (g : Gateway Num)
      → let h = reject_inspects es u error g in
        Keeps g h
        × (h.pending_commands ≡ g.pending_commands)
        × (h.log_subscribers ≡ g.log_subscribers)
  unfolding reject_inspects
  reject_inspects-Keeps [] u error g = ((refl, refl, refl), refl, refl)
  reject_inspects-Keeps ((r, c) ∷ es) u error g = ground (
    arith,
    reject_inspects-Keeps es u error (drop_inspect r c error g),
    reject_inspects-Keeps es u error g,
  )

  get-reject_inspects :
      (q : String) (es : List (String × PendingInspect)) (u error : String) (g : Gateway Num)
      → get q (reject_inspects es u error g).pending_inspects
        ≡ (if any_at q (λ p. p.agent_uuid == u) es then none else get q g.pending_inspects)
  unfolding reject_inspects
  get-reject_inspects q [] u error g = refl
  get-reject_inspects q ((r, c) ∷ es) u error g = ground (
    arith,
    get-reject_inspects q es u error (drop_inspect r c error g),
    get-reject_inspects q es u error g,
    get-delete r q g.pending_inspects,
  )

  unsubscribe_logs-Keeps :
      (es : List (String × LogSubscriber)) (u : String) (g : Gateway Num)
      → let h = unsubscribe_logs es u g in
        Keeps g h
        × (h.pending_commands ≡ g.pending_commands)
        × (h.pending_inspects ≡ g.pending_inspects)
  unfolding unsubscribe_logs
  unsubscribe_logs-Keeps [] u g = ((refl, refl, refl), refl, refl)
  unsubscribe_logs-Keeps ((r, c) ∷ es) u g =
      ground
        (arith, unsubscribe_logs-Keeps es u (drop_subscriber r g), unsubscribe_logs-Keeps es u g)

  get-unsubscribe_logs :
      (q : String) (es : List (String × LogSubscriber)) (u : String) (g : Gateway Num)
      → get q (unsubscribe_logs es u g).log_subscribers
        ≡ (if any_at q (λ s. s.agent_uuid == u) es then none else get q g.log_subscribers)
  unfolding unsubscribe_logs
  get-unsubscribe_logs q [] u g = refl
  get-unsubscribe_logs q ((r, c) ∷ es) u g = ground (
    arith,
    get-unsubscribe_logs q es u (drop_subscriber r g),
    get-unsubscribe_logs q es u g,
    get-delete r q g.log_subscribers,
  )

  get-reject_pending_commands :
      (q u error : String) (g : Gateway Num)
      → get q (reject_pending_commands_for_agent u error g).pending_commands
        ≡ unless (λ p. p.agent_uuid == u) (get q g.pending_commands)
  unfolding reject_pending_commands_for_agent
  get-reject_pending_commands q u error g =
      rw (get-reject_commands, any_at-entries) (unless-passes _ (get q g.pending_commands))

  get-reject_pending_inspects :
      (q u error : String) (g : Gateway Num)
      → get q (reject_pending_inspects_for_agent u error g).pending_inspects
        ≡ unless (λ p. p.agent_uuid == u) (get q g.pending_inspects)
  unfolding reject_pending_inspects_for_agent
  get-reject_pending_inspects q u error g =
      rw (get-reject_inspects, any_at-entries) (unless-passes _ (get q g.pending_inspects))

  get-unsubscribe_logs_for_agent :
      (q u : String) (g : Gateway Num)
      → get q (unsubscribe_logs_for_agent u g).log_subscribers
        ≡ unless (λ s. s.agent_uuid == u) (get q g.log_subscribers)
  unfolding unsubscribe_logs_for_agent
  get-unsubscribe_logs_for_agent q u g =
      rw (get-unsubscribe_logs, any_at-entries) (unless-passes _ (get q g.log_subscribers))

  pub get_list-resolve_pending_list :
      (u v : String) (cs : List (ContainerSummary Num)) (g : Gateway Num)
      → get v (resolve_pending_list u cs g).pending_lists
        ≡ (if u == v then none else get v g.pending_lists)
  unfolding resolve_pending_list
  get_list-resolve_pending_list u v cs g =
      ground (arith, get-delete u v g.pending_lists, eq_iff u v)

  pub resolve_pending_list-Keeps :
      (u : String) (cs : List (ContainerSummary Num)) (g : Gateway Num)
      → let h = resolve_pending_list u cs g in
        (h.sockets_by_uuid ≡ g.sockets_by_uuid)
        × (h.sockets ≡ g.sockets)
        × (h.pending_commands ≡ g.pending_commands)
        × (h.pending_inspects ≡ g.pending_inspects)
        × (h.log_subscribers ≡ g.log_subscribers)
        × (h.inventory ≡ g.inventory)
        × (h.host_metrics ≡ g.host_metrics)
  unfolding resolve_pending_list
  resolve_pending_list-Keeps u cs g = ground arith

  -- After the socket of an agent has closed, nothing waits for that agent: its socket, its list
  -- request, its commands, its inspections and its log streams are gone. What waits for other
  -- agents is as it was.
  pub handle_disconnect_lem :
      (client : ℕ) (u : String) (g : Gateway Num)
      → filled (g.sockets client).agent_uuid ≡ some u
      → let h = handle_disconnect client g in
        ((v : String)
          → get v h.sockets_by_uuid ≡ (if u == v then none else get v g.sockets_by_uuid))
        × ((v : String) → get v h.pending_lists ≡ (if u == v then none else get v g.pending_lists))
        × ((q : String)
            → get q h.pending_commands ≡ unless (λ p. p.agent_uuid == u) (get q g.pending_commands))
        × ((q : String)
            → get q h.pending_inspects ≡ unless (λ p. p.agent_uuid == u) (get q g.pending_inspects))
        × ((q : String)
            → get q h.log_subscribers ≡ unless (λ s. s.agent_uuid == u) (get q g.log_subscribers))
  unfolding handle_disconnect reject_pending_commands_for_agent reject_pending_inspects_for_agent
      unsubscribe_logs_for_agent
  handle_disconnect_lem client u g e =
      let f = forget_socket u g in
      let a = resolve_pending_list u (cached u g) f in
      let b = reject_commands (entries a.pending_commands) u command_lost a in
      let c = reject_inspects (entries b.pending_inspects) u inspect_lost b in
      let ka = resolve_pending_list-Keeps u (cached u g) f in
      let kb = reject_commands-Keeps (entries a.pending_commands) u command_lost a in
      let kc = reject_inspects-Keeps (entries b.pending_inspects) u inspect_lost b in
      let kd = unsubscribe_logs-Keeps (entries c.log_subscribers) u c in
      rw e (
        λ v. ground (arith, ka, kb, kc, kd, get-delete u v g.sockets_by_uuid),
        λ v. ground (arith, kb, kc, kd, get_list-resolve_pending_list u v (cached u g) f),
        λ q. ground (arith, ka, kc, kd, get-reject_pending_commands q u command_lost a),
        λ q. ground (arith, ka, kb, kd, get-reject_pending_inspects q u inspect_lost b),
        λ q. ground (arith, ka, kb, kc, get-unsubscribe_logs_for_agent q u c),
      )

  -- The sockets themselves are as they were.
  pub handle_disconnect_sockets :
      (client : ℕ) (g : Gateway Num) → (handle_disconnect client g).sockets ≡ g.sockets
  unfolding handle_disconnect reject_pending_commands_for_agent reject_pending_inspects_for_agent
      unsubscribe_logs_for_agent
  handle_disconnect_sockets client g = elim (Option-cases (filled (g.sockets client).agent_uuid)) [
    | inl e ↦ rw e refl
    | inr (u, e) ↦
        let f = forget_socket u g in
        let a = resolve_pending_list u (cached u g) f in
        let b = reject_commands (entries a.pending_commands) u command_lost a in
        let c = reject_inspects (entries b.pending_inspects) u inspect_lost b in
        rw e (
          ground (
            arith,
            resolve_pending_list-Keeps u (cached u g) f,
            reject_commands-Keeps (entries a.pending_commands) u command_lost a,
            reject_inspects-Keeps (entries b.pending_inspects) u inspect_lost b,
            unsubscribe_logs-Keeps (entries c.log_subscribers) u c,
          ))
  ]
