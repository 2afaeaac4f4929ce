-- ===== src/Gateway/Ledger/Disconnect.antt =====
-- The moves of a disconnect: each loop settles the requests of that agent, one by one.
use docksight.Base.{
  ℕ, String, ◌≡◌, refl, Option, none, some, arith, true, false, ◌∙◌, ◌==◌, eq_iff, if◌then◌else◌,
  List, [], ◌∷◌, All,
}
use docksight.Dict.{
  Dict, get, delete, entries, get-delete, get-entries, entries-HasUniqueKeys, HasUniqueKeys, Absent,
}
use docksight.Json.{filled}
use docksight.Gateway.State.{
  Gateway, PendingCommand, PendingInspect, LogSubscriber, reject_command, reject_inspect, cached,
  resolve_pending_list,
}
use docksight.Gateway.Disconnect.{
  drop_command, drop_inspect, drop_subscriber, reject_commands, reject_inspects, unsubscribe_logs,
  reject_pending_commands_for_agent, reject_pending_inspects_for_agent, unsubscribe_logs_for_agent,
  handle_disconnect, disconnect_agent, forget_socket, command_lost, inspect_lost,
}
use docksight.Gateway.Ledger.View.{view, settle_command, settle_inspect}
use docksight.Gateway.Ledger.Calls.{
  Makes, Makes-same, Move-Makes, Makes-trans, Makes-if, resolve_pending_list-Makes,
}

-- Entries that are all still there.
abbrev Present {ℓ} : {V : Type ℓ} → List (String × V) → Dict V → Type ℓ
Present es d = All (λ e. get e.0 d ≡ some e.1) es

-- Taking out one key leaves the entries under the others.
Present-delete {ℓ} :
    {V : Type ℓ} (k : String) (es : List (String × V)) (d : Dict V)
    → Absent k es
    → Present es d
    → Present es (delete k d)
Present-delete k [] d a p = tt
Present-delete k ((j, v) ∷ es) d (n, a) (q, p) =
    (ground (arith, get-delete k j d, eq_iff k j), Present-delete k es d a p)

module _ {Num : Type 0} where
  -- One round of the loop.
  reject_commands-Makes :
      (es : List (String × PendingCommand)) (u error : String) (g : Gateway Num)
      → HasUniqueKeys es
      → Present es g.pending_commands
      → Makes g (reject_commands es u error g)
  unfolding reject_commands
  reject_commands-Makes [] u error g h p = Makes-same refl
  reject_commands-Makes ((r, c) ∷ es) u error g (a, h) (q, p) =
      let mine = c.agent_uuid == u in
      let next = if mine then drop_command r c error g else g in
      Makes-trans
        (Makes-if mine
          (λ _.
            Move-Makes
              (settle_command c.ticket (reject_command c.ticket error) g refl r (rw q refl)))
          (λ _. Makes-same refl))
        (reject_commands-Makes es u error next h
          (elim mine
            as (λ b. Present es (if b then drop_command r c error g else g).pending_commands) [
              | true ↦ Present-delete r es g.pending_commands a p
              | false ↦ p
            ]))

  -- One round of the loop.
  reject_inspects-Makes :
      (es : List (String × PendingInspect)) (u error : String) (g : Gateway Num)
      → HasUniqueKeys es
      → Present es g.pending_inspects
      → Makes g (reject_inspects es u error g)
  unfolding reject_inspects
  reject_inspects-Makes [] u error g h p = Makes-same refl
  reject_inspects-Makes ((r, c) ∷ es) u error g (a, h) (q, p) =
      let mine = c.agent_uuid == u in
      let next = if mine then drop_inspect r c error g else g in
      Makes-trans
        (Makes-if mine
          (λ _.
            Move-Makes
              (settle_inspect c.ticket (reject_inspect c.ticket error) g refl r (rw q refl)))
          (λ _. Makes-same refl))
        (reject_inspects-Makes es u error next h
          (elim mine
            as (λ b. Present es (if b then drop_inspect r c error g else g).pending_inspects) [
              | true ↦ Present-delete r es g.pending_inspects a p
              | false ↦ p
            ]))

  pub reject_pending_commands-Makes :
      (u error : String) (g : Gateway Num) → Makes g (reject_pending_commands_for_agent u error g)
  unfolding reject_pending_commands_for_agent
  reject_pending_commands-Makes u error g =
      reject_commands-Makes (entries g.pending_commands) u error g
        (entries-HasUniqueKeys g.pending_commands) (get-entries g.pending_commands)

  pub reject_pending_inspects-Makes :
      (u error : String) (g : Gateway Num) → Makes g (reject_pending_inspects_for_agent u error g)
  unfolding reject_pending_inspects_for_agent
  reject_pending_inspects-Makes u error g =
      reject_inspects-Makes (entries g.pending_inspects) u error g
        (entries-HasUniqueKeys g.pending_inspects) (get-entries g.pending_inspects)

  view-unsubscribe_logs :
      (es : List (String × LogSubscriber)) (u : String) (g : Gateway Num)
      → view (unsubscribe_logs es u g) ≡ view g
  unfolding unsubscribe_logs
  view-unsubscribe_logs [] u g = refl
  view-unsubscribe_logs ((r, s) ∷ es) u g =
      let mine = s.agent_uuid == u in
      view-unsubscribe_logs es u (if mine then drop_subscriber r g else g)
      ∙ elim mine as (λ b. view (if b then drop_subscriber r g else g) ≡ view g) [
        | true ↦ refl
        | false ↦ refl
      ]

  view-unsubscribe_logs_for_agent :
      (u : String) (g : Gateway Num) → view (unsubscribe_logs_for_agent u g) ≡ view g
  unfolding unsubscribe_logs_for_agent
  view-unsubscribe_logs_for_agent u g = view-unsubscribe_logs (entries g.log_subscribers) u g

  disconnect_agent-Makes : (u : Option String) (g : Gateway Num) → Makes g (disconnect_agent u g)
  disconnect_agent-Makes none g = Makes-same refl
  disconnect_agent-Makes (some u) g =
      let f = forget_socket u g in
      let a = resolve_pending_list u (cached u g) f in
      let b = reject_pending_commands_for_agent u command_lost a in
      let c = reject_pending_inspects_for_agent u inspect_lost b in
      let d = unsubscribe_logs_for_agent u c in
      Makes-trans {h = f} (Makes-same refl) (
        Makes-trans {h = a} (resolve_pending_list-Makes u (cached u g) f) (
          Makes-trans {h = b} (reject_pending_commands-Makes u command_lost a) (
            Makes-trans {h = c} (reject_pending_inspects-Makes u inspect_lost b) (
              Makes-trans {h = d} (Makes-same (view-unsubscribe_logs_for_agent u c))
                (Makes-same refl)))))

  pub handle_disconnect-Makes :
      (client : ℕ) (g : Gateway Num) → Makes g (handle_disconnect client g)
  unfolding handle_disconnect
  handle_disconnect-Makes client g = disconnect_agent-Makes (filled (g.sockets client).agent_uuid) g
