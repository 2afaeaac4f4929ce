-- ===== src/Gateway/Ledger/Calls.antt =====
-- The moves of the server's own calls and of a disconnect.
use docksight.Base.{
  ℕ, String, Bool, true, false, ◌≡◌, refl, sym, subst, none, arith, eq_refl, if◌then◌else◌, List,
  Option-cases, inl, inr,
}
use docksight.Dict.{get, delete, get-delete}
use docksight.Json.{Numbers}
use docksight.Protocol.Envelope.{Envelope}
use docksight.Protocol.Container.{ContainerAction, ContainerSummary}
use docksight.Gateway.State.{Gateway, resolve_list, send, client_of, cached, resolve_pending_list}
use docksight.Gateway.Calls.{
  request_container_list, send_container_command, inspect_container, LogStreamOptions,
  start_log_stream, stop_log_stream, remember, list_request,
}
use docksight.Gateway.Ledger.{Move, Moves, stay, after}
use docksight.Gateway.Ledger.Balance.{Moves-append}
use docksight.Gateway.Ledger.View.{
  view, view-send, settle_list, issue_list, issue_command, issue_inspect,
}

module _ {Num : Type 0} where
  -- The code makes moves of the ledger between two gateways.
  pub record Makes (g h : Gateway Num) : Type 0 where
    pub moves : Moves (view g) (view h)

  -- What leaves the ledger alone makes no move.
  pub Makes-same : {g h : Gateway Num} → view h ≡ view g → Makes g h
  Makes-same {g} e = record { moves = subst (Moves (view g)) (sym e) stay }

  pub Move-Makes : {g h : Gateway Num} → Move (view g) (view h) → Makes g h
  Move-Makes m = record { moves = after stay m }

  pub Makes-trans : {g h k : Gateway Num} → Makes g h → Makes h k → Makes g k
  Makes-trans p q = record { moves = Moves-append p.moves q.moves }

  pub Makes-send : {g h : Gateway Num} (c : ℕ) (e : Envelope Num) → Makes g h → Makes g (send c e h)
  Makes-send {g} {h} c e p = Makes-trans p (Makes-same (view-send c e h))

  pub Makes-if :
      (b : Bool) {g h k : Gateway Num}
      → (b ≡ true → Makes g h)
      → (b ≡ false → Makes g k)
      → Makes g (if b then h else k)
  Makes-if true p q = p refl
  Makes-if false p q = q refl

  remember-Makes : (h u : String) (g : Gateway Num) → Makes g (remember h u g)
  remember-Makes h u g = Makes-same refl

  pub resolve_pending_list-Makes :
      (u : String) (cs : List (ContainerSummary Num)) (g : Gateway Num)
      → Makes g (resolve_pending_list u cs g)
  unfolding resolve_pending_list
  resolve_pending_list-Makes u cs g = elim (Option-cases (get u g.pending_lists)) [
    | inl e ↦ rw e (Makes-same refl)
    | inr (p, e) ↦
        rw e (Move-Makes (settle_list p.ticket (resolve_list p.ticket cs) g refl u (rw e refl)))
  ]

  -- No list request of the agent is left.
  pub get-resolve_pending_list :
      (u : String) (cs : List (ContainerSummary Num)) (g : Gateway Num)
      → get u (resolve_pending_list u cs g).pending_lists ≡ none
  unfolding resolve_pending_list
  get-resolve_pending_list u cs g = ground (arith, get-delete u u g.pending_lists, eq_refl u)

  pub request_container_list-Makes :
      (u h : String) (g : Gateway Num) → Makes g (request_container_list u h g).0
  unfolding request_container_list
  request_container_list-Makes u h g = elim (Option-cases (client_of u (remember h u g))) [
    | inl e ↦ rw e (Makes-same refl)
    | inr (c, e) ↦
        let k = remember h u g in
        let k' = resolve_pending_list u (cached u k) k in
        rw e (
          Makes-send c list_request (
            Makes-trans (remember-Makes h u g) (
              Makes-trans (resolve_pending_list-Makes u (cached u k) k)
                (Move-Makes (issue_list k' u h (get-resolve_pending_list u (cached u k) k))))))
  ]

  pub send_container_command-Makes :
      (u h : String) (a : ContainerAction) (cid : String) (f : Bool) (r : String) (g : Gateway Num)
      → get r g.pending_commands ≡ none
      → Makes g (send_container_command u h a cid f r g).0
  unfolding send_container_command
  send_container_command-Makes u h a cid f r g free =
      elim (Option-cases (client_of u (remember h u g))) [
        | inl e ↦ rw e (Makes-same refl)
        | inr (c, e) ↦ rw e (
            Makes-send c _ (
              Makes-trans (remember-Makes h u g)
                (Move-Makes (issue_command (remember h u g) r a u free))))
      ]

  pub inspect_container-Makes :
      (u h cid r : String) (g : Gateway Num)
      → get r g.pending_inspects ≡ none
      → Makes g (inspect_container u h cid r g).0
  unfolding inspect_container
  inspect_container-Makes u h cid r g free = elim (Option-cases (client_of u (remember h u g))) [
    | inl e ↦ rw e (Makes-same refl)
    | inr (c, e) ↦ rw e (
        Makes-send c _ (
          Makes-trans (remember-Makes h u g)
            (Move-Makes (issue_inspect (remember h u g) r u free))))
  ]

  pub stop_log_stream-Makes : (r : String) (g : Gateway Num) → Makes g (stop_log_stream r g)
  unfolding stop_log_stream
  stop_log_stream-Makes r g = elim (Option-cases (get r g.log_subscribers)) [
    | inl e ↦ rw e (Makes-same refl)
    | inr (s, e) ↦
        let h = record g { log_subscribers = delete r g.log_subscribers } in
        elim (Option-cases (client_of s.agent_uuid h)) [
          | inl f ↦ rw (e, f) (Makes-same refl)
          | inr (c, f) ↦ rw (e, f) (Makes-send c _ (Makes-same refl))
        ]
  ]

module _ (n : Numbers) where
  pub start_log_stream-Makes :
      (o : LogStreamOptions n.Num) (r : String) (g : Gateway n.Num)
      → Makes g (start_log_stream n o r g).0
  unfolding start_log_stream
  start_log_stream-Makes o r g =
      elim (Option-cases (client_of o.agent_uuid (remember o.host_id o.agent_uuid g))) [
        | inl e ↦ rw e (Makes-same refl)
        | inr (c, e) ↦ rw e (Makes-send c _ (Makes-same refl))
      ]
