-- ===== src/Gateway/Ledger/Refinement.antt =====
-- Every step of the gateway makes moves of its ledger, so the ledger stays balanced.
use docksight.Base.{ℕ, ◌≡◌, refl, none, some, arith, eqb_refl, ◌+◌, ◌<◌, ◌≤◌, AllSome, subst, sym}
use docksight.Dict.{get, empty}
use docksight.Json.{Numbers}
use docksight.Gateway.State.{Gateway, new_gateway, timer_of}
use docksight.Gateway.Messages.{Runtime}
use docksight.Gateway.Step.{
  Event, connected, ready_changed, disconnected, message, registered, timed_out, list_call,
  command_call, inspect_call, logs_call, stop_logs_call, step, IsFresh, Reach, started, next,
  handle_connection, set_ready_state, fire_timer,
}
use docksight.Gateway.Ledger.{
  Slot, list_slot, command_slot, inspect_slot, Moves, stay, waiting, Balanced,
}
use docksight.Gateway.Ledger.Balance.{Moves-Balanced}
use docksight.Gateway.Ledger.View.{view, timer_of-cancel, slot_in, settled_in, holder_in}
use docksight.Gateway.Ledger.Calls.{
  request_container_list-Makes, send_container_command-Makes, inspect_container-Makes,
  start_log_stream-Makes, stop_log_stream-Makes,
}
use docksight.Gateway.Ledger.Disconnect.{handle_disconnect-Makes}
use docksight.Gateway.Ledger.Handlers.{
  handle_message-Makes, handle_registered-Makes, fire_timer-Makes,
}

module _ (Num : Type 0) where
  new_gateway-held :
      (s : Slot)
      → AllSome
          (λ t. slot_in (new_gateway {Num = Num}) t ≡ some s)
          (holder_in (new_gateway {Num = Num}) s)
  unfolding new_gateway get empty
  new_gateway-held (list_slot u) = tt
  new_gateway-held (command_slot q) = tt
  new_gateway-held (inspect_slot q) = tt

  new_gateway-Balanced : Balanced (view (new_gateway {Num = Num}))
  unfolding new_gateway timer_of
  new_gateway-Balanced = record {
    held = new_gateway-held;
    timed = λ t. tt;
    fresh = λ t p. (refl, refl);
    once = λ t p. absurd (omega arith);
  }

module _ (n : Numbers) (r : Runtime n) where
  open n use {Num}

  -- Where the ledger is balanced, each event whose new request id is fresh makes moves of it.
  step-Moves_balanced :
      (e : Event Num) (g : Gateway Num)
      → IsFresh n r e g
      → Balanced (view g)
      → Moves (view g) (view (step n r e g))
  unfolding step handle_connection set_ready_state
  step-Moves_balanced (connected c) g f b = stay
  step-Moves_balanced (ready_changed c s) g f b = stay
  step-Moves_balanced (disconnected c) g f b = (handle_disconnect-Makes c g).moves
  step-Moves_balanced (message c raw now) g f b = (handle_message-Makes n r c raw now g).moves
  step-Moves_balanced (registered c a) g f b = (handle_registered-Makes c a g).moves
  step-Moves_balanced (timed_out t) g f b = (fire_timer-Makes t g b).moves
  step-Moves_balanced (list_call u h) g f b = (request_container_list-Makes u h g).moves
  step-Moves_balanced (command_call u h a cid force q) g f b =
      (send_container_command-Makes u h a cid force q g f).moves
  step-Moves_balanced (inspect_call u h cid q) g f b = (inspect_container-Makes u h cid q g f).moves
  step-Moves_balanced (logs_call o q) g f b = (start_log_stream-Makes n o q g).moves
  step-Moves_balanced (stop_logs_call q) g f b = (stop_log_stream-Makes q g).moves

  -- So the ledger is balanced in every state that the gateway can get into.
  pub Reach-Balanced : {g : Gateway Num} → Reach n r g → Balanced (view g)
  Reach-Balanced started = new_gateway-Balanced Num
  Reach-Balanced (next {g} reached e fresh same) =
      subst (λ k. Balanced (view k)) (sym same)
        (Moves-Balanced (step-Moves_balanced e g fresh (Reach-Balanced reached))
          (Reach-Balanced reached))

  -- In every state that the gateway can get into, each event whose new request id, if it has one, is
  -- one that no pending request has makes a sequence of moves of the ledger: it opens promises under
  -- free slots and settles those that a slot holds, and does nothing else to the promises.
  pub step-Moves :
      (e : Event Num) (g : Gateway Num)
      → Reach n r g
      → IsFresh n r e g
      → Moves (view g) (view (step n r e g))
  step-Moves e g reached fresh = step-Moves_balanced e g fresh (Reach-Balanced reached)

  -- In every state that the gateway can get into, each promise that it gave out is either waiting,
  -- with a running timer and never settled, or was settled exactly once and has no timer; what it
  -- did not give out was never settled.
  pub settled_once :
      (g : Gateway Num) (t : ℕ)
      → Reach n r g
      → (t < g.next_ticket → settled_in g.log t + waiting (slot_in g t) ≡ 1)
        × (g.next_ticket ≤ t → settled_in g.log t ≡ 0)
  settled_once g t reached = let b = Reach-Balanced reached in (b.once t, λ p. (b.fresh t p).1)

  slot_in-fire_timer :
      (t : ℕ) (g : Gateway Num)
      → (slot_in (fire_timer t g) t ≡ none) × ((fire_timer t g).next_ticket ≡ g.next_ticket)
  unfolding fire_timer
  slot_in-fire_timer t g = ground (arith, timer_of-cancel t t g.timers, eqb_refl t)

  -- A promise that was given out is settled, once, when its timer has run out, if it was not
  -- before; and the timer is gone.
  pub timed_out_settles :
      (g : Gateway Num) (t : ℕ)
      → Reach n r g
      → t < g.next_ticket
      → let h = step n r (timed_out t) g in (settled_in h.log t ≡ 1) × (slot_in h t ≡ none)
  unfolding step
  timed_out_settles g t reached p =
      let b = Reach-Balanced (next reached (timed_out t) tt refl) in
      let (gone, same) = slot_in-fire_timer t g in (ground (arith, b.once t, gone, same, p), gone)
