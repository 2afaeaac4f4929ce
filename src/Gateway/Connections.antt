-- ===== src/Gateway/Connections.antt =====
-- Which socket stands for an agent, and what the inventory holds after a list.
use docksight.Base.{
  ℕ, String, Bool, true, ◌≡◌, refl, ◌≢◌, none, some, arith, ◌==◌, eq_iff, eq_refl, if◌then◌else◌,
  eqb_refl, List, ◌∷◌, ◌∙◌, All,
}
use docksight.Dict.{get, get-set}
use docksight.Json.{Numbers, filled, str, arr, field, end}
use docksight.Protocol.Envelope.{create_envelope}
use docksight.Protocol.Container.{ContainerAction, ContainerSummary, container_list}
use docksight.Protocol.Messages.{AgentRegistered}
use docksight.Inventory
use docksight.Inventory.{snapshot_of}
use docksight.Inventory.Laws.{set_containers_lem}
use docksight.Parser.Contract.{IsSummary}
use docksight.Parser.Listed.{summaries_json, parse_container_listed_payload-listed_json}
use docksight.Gateway.State.{
  Gateway, sent, resolve_list, client_of, send, is_open, resolve_pending_list,
}
use docksight.Gateway.Calls.{send_container_command, thrown}
use docksight.Gateway.Disconnect.{handle_disconnect}
use docksight.Gateway.Handlers.{handle_registered, handle_container_listed, registered_envelope}
use docksight.Gateway.Cleanup.{
  handle_disconnect_lem, handle_disconnect_sockets, resolve_pending_list-Keeps,
}
use docksight.Gateway.Ledger.Calls.{get-resolve_pending_list}
use docksight.Gateway.Ledger.View.{list_ticket}
use docksight.Gateway.Routing.{client_of-is_open, send_container_command-closed}

module _ {Num : Type 0} where
  -- When the database has answered a registration and the socket is still open, the agent's calls
  -- go to that socket, the socket knows the agent, and it was sent the answer and then a request
  -- for the containers.
  pub handle_registered_lem :
      (c : ℕ) (a : AgentRegistered) (g : Gateway Num)
      → is_open c g ≡ true
      → let h = handle_registered c a g in
        (client_of a.uuid h ≡ some c)
        × ((h.sockets c).agent_uuid ≡ some a.uuid)
        × ((h.sockets c).agent_id ≡ some a.id)
        × (h.log
            ≡ sent c (create_envelope container_list end)
              ∷ sent c (registered_envelope (str a.id) (str a.uuid) (str a.status) (str a.message))
              ∷ g.log)
  unfolding handle_registered client_of send
  handle_registered_lem c a g e = (
    ground (arith, e, get-set a.uuid a.uuid c g.sockets_by_uuid, eq_refl a.uuid, eqb_refl c),
    ground (arith, e, eqb_refl c),
    ground (arith, e, eqb_refl c),
    ground (arith, e, eqb_refl c),
  )

  client_of-missing :
      (u : String) (g : Gateway Num) → get u g.sockets_by_uuid ≡ none → client_of u g ≡ none
  unfolding client_of
  client_of-missing u g e = rw e refl

  -- When an agent is reachable on a new socket and an old socket that still carries its uuid closes,
  -- the new socket is no longer found although it is open, and every command to the agent is refused.
  pub stale_disconnect :
      (old new : ℕ) (u : String) (g : Gateway Num)
      → filled (g.sockets old).agent_uuid ≡ some u
      → client_of u g ≡ some new
      → let h = handle_disconnect old g in
        (is_open new h ≡ true)
        × (client_of u h ≡ none)
        × ((host : String) (a : ContainerAction) (cid q : String) (force : Bool)
            → (send_container_command u host a cid force q h).1 ≡ thrown "Agent is not connected")
  stale_disconnect old new u g e f =
      let h = handle_disconnect old g in
      let gone =
        client_of-missing u h ((handle_disconnect_lem old u g e).0 u ∙ ground (arith, eq_refl u)) in
      (
        ground (arith, handle_disconnect_sockets old g, client_of-is_open u g f),
        gone,
        λ host a cid q force. (send_container_command-closed u host a cid force q h gone).0,
      )

module _ {Num : Type 0} where
  log-resolve_pending_list :
      (u : String) (cs : List (ContainerSummary Num)) (g : Gateway Num) (t : ℕ)
      → list_ticket (get u g.pending_lists) ≡ some t
      → (resolve_pending_list u cs g).log ≡ resolve_list t cs ∷ g.log
  unfolding resolve_pending_list
  log-resolve_pending_list u cs g t e = ground arith

module _ (n : Numbers) where
  open n use {Num}

  -- What a registered agent lists is what its host then holds: when it sends containers that keep
  -- the contract of a summary, its host's snapshot has those containers and the time of receipt,
  -- every other host keeps its own, and a list request that waits for the agent is answered with
  -- them and is gone.
  pub handle_container_listed_lem :
      (c : ℕ) (cs : List (ContainerSummary Num)) (now : ℕ) (g : Gateway Num) (u h : String)
      → filled (g.sockets c).agent_uuid ≡ some u
      → (g.sockets c).agent_id ≡ some h
      → h ≢ ""
      → All (IsSummary n) cs
      → let k =
          handle_container_listed n c (field "containers" (arr (summaries_json cs)) end) now g in
        (Inventory.get_by_uuid u k.inventory ≡ some (snapshot_of h u cs now))
        × ((j : String)
            → Inventory.get_by_host_id j k.inventory ≡ (
                if h == j
                then some (snapshot_of h u cs now)
                else Inventory.get_by_host_id j g.inventory))
        × (get u k.pending_lists ≡ none)
        × ((t : ℕ)
            → list_ticket (get u g.pending_lists) ≡ some t
            → k.log ≡ resolve_list t cs ∷ g.log)
  unfolding handle_container_listed
  handle_container_listed_lem c cs now g u h e f has_id ok =
      let stored =
        set_containers_lem u cs (some h) now g.inventory h (ground (arith, eq_iff h "", has_id)) in
      let m = record g { inventory = (Inventory.set_containers u cs (some h) now g.inventory).0 } in
      let kept = (resolve_pending_list-Keeps u cs m).5 in
      rw (e, f, parse_container_listed_payload-listed_json n cs ok, kept)
        (
          stored.1,
          stored.2,
          get-resolve_pending_list u cs m,
          λ t waits. log-resolve_pending_list u cs m t waits,
        )
