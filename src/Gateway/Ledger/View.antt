-- ===== src/Gateway/Ledger/View.antt =====
-- The ledger that a gateway keeps, and the moves that its pieces of code make on it.
use docksight.Base.{
  ℕ, suc, String, ◌≡◌, refl, Option, none, some, eqb, arith, if◌then◌else◌, List, [], ◌∷◌,
  Bool-cases, inl, inr,
}
use docksight.Dict.{get, set, delete, get-set, get-delete}
use docksight.Protocol.Envelope.{Envelope}
use docksight.Protocol.Container.{ContainerAction}
use docksight.Gateway.State.{
  Gateway, PendingList, PendingCommand, PendingInspect, TimerTask, list_timeout, command_timeout,
  inspect_timeout, Effect, resolve_list, resolve_command, reject_command, resolve_inspect,
  reject_inspect, timer_of, cancel, emit, send, start_timer, is_open,
}
use docksight.Gateway.Ledger.{
  Slot, list_slot, command_slot, inspect_slot, slot_eq, Ledger, Move, issue, settle,
}

-- A ticket runs one timer only; what was cancelled does not run.
pub timer_of-cancel :
    (u t : ℕ) (timers : List (ℕ × TimerTask))
    → timer_of t (cancel u timers) ≡ (if eqb u t then none else timer_of t timers)
unfolding timer_of cancel
timer_of-cancel u t [] = ground arith
timer_of-cancel u t ((v, task) ∷ timers) = ground (arith, timer_of-cancel u t timers)

abbrev task_slot : Option TimerTask → Option Slot
task_slot none = none
task_slot (some (list_timeout u h)) = some (list_slot u)
task_slot (some (command_timeout r a)) = some (command_slot r)
task_slot (some (inspect_timeout r)) = some (inspect_slot r)

abbrev pub list_ticket : Option PendingList → Option ℕ
list_ticket none = none
list_ticket (some p) = some p.ticket

abbrev command_ticket : Option PendingCommand → Option ℕ
command_ticket none = none
command_ticket (some p) = some p.ticket

abbrev inspect_ticket : Option PendingInspect → Option ℕ
inspect_ticket none = none
inspect_ticket (some p) = some p.ticket

abbrev count : Option ℕ → ℕ → ℕ → ℕ
count none t n = n
count (some u) t n = if eqb u t then suc n else n

module _ {Num : Type 0} where
  -- The promise that an effect settles.
  abbrev pub ticket_of : Effect Num → Option ℕ
  ticket_of (resolve_list t cs) = some t
  ticket_of (resolve_command t r) = some t
  ticket_of (reject_command t e) = some t
  ticket_of (resolve_inspect t r) = some t
  ticket_of (reject_inspect t e) = some t
  ticket_of _ = none

  -- How often a promise was settled.
  abbrev pub settled_in : List (Effect Num) → ℕ → ℕ
  settled_in [] t = 0
  settled_in (e ∷ log) t = count (ticket_of e) t (settled_in log t)

  abbrev pub holder_in : Gateway Num → Slot → Option ℕ
  holder_in g (list_slot u) = list_ticket (get u g.pending_lists)
  holder_in g (command_slot r) = command_ticket (get r g.pending_commands)
  holder_in g (inspect_slot r) = inspect_ticket (get r g.pending_inspects)

  abbrev pub slot_in : Gateway Num → ℕ → Option Slot
  slot_in g t = task_slot (timer_of t g.timers)

  abbrev pub view : Gateway Num → Ledger
  view g = record {
    holder = holder_in g;
    slot = slot_in g;
    settled = settled_in g.log;
    next = g.next_ticket;
  }

  pub view-send : (c : ℕ) (e : Envelope Num) (g : Gateway Num) → view (send c e g) ≡ view g
  unfolding send
  view-send c e g = elim (Bool-cases (is_open c g)) [ inl h ↦ rw h refl | inr h ↦ rw h refl ]

  slot-cancel :
      (g : Gateway Num) (u t : ℕ)
      → task_slot (timer_of t (cancel u g.timers)) ≡ (if eqb u t then none else slot_in g t)
  slot-cancel g u t = ground (arith, timer_of-cancel u t g.timers)

  slot-start :
      (g : Gateway Num) (task : TimerTask) (t : ℕ)
      → task_slot (timer_of t (start_timer task g))
        ≡ (if eqb g.next_ticket t then task_slot (some task) else slot_in g t)
  unfolding timer_of
  slot-start g task t = ground arith

  module _ (t : ℕ) (e : Effect Num) (g : Gateway Num) (mine : ticket_of e ≡ some t) where
    pub settle_list :
        (u : String)
        → holder_in g (list_slot u) ≡ some t
        → Move (view g) (
            view (
              emit e (record g {
                timers = cancel t g.timers;
                pending_lists = delete u g.pending_lists;
              })))
    settle_list u h =
        settle (list_slot u) t h holds (slot-cancel g t) (λ k. ground (arith, mine)) refl
      where
        holds :
            (k : Slot)
            → holder_in (record g { pending_lists = delete u g.pending_lists }) k
              ≡ (if slot_eq (list_slot u) k then none else holder_in g k)
        holds (list_slot a) = ground (arith, get-delete u a g.pending_lists)
        holds (command_slot r) = refl
        holds (inspect_slot r) = refl

    pub settle_command :
        (r : String)
        → holder_in g (command_slot r) ≡ some t
        → Move (view g) (
            view (
              emit e (record g {
                timers = cancel t g.timers;
                pending_commands = delete r g.pending_commands;
              })))
    settle_command r h =
        settle (command_slot r) t h holds (slot-cancel g t) (λ k. ground (arith, mine)) refl
      where
        holds :
            (k : Slot)
            → holder_in (record g { pending_commands = delete r g.pending_commands }) k
              ≡ (if slot_eq (command_slot r) k then none else holder_in g k)
        holds (list_slot a) = refl
        holds (command_slot a) = ground (arith, get-delete r a g.pending_commands)
        holds (inspect_slot a) = refl

    pub settle_inspect :
        (r : String)
        → holder_in g (inspect_slot r) ≡ some t
        → Move (view g) (
            view (
              emit e (record g {
                timers = cancel t g.timers;
                pending_inspects = delete r g.pending_inspects;
              })))
    settle_inspect r h =
        settle (inspect_slot r) t h holds (slot-cancel g t) (λ k. ground (arith, mine)) refl
      where
        holds :
            (k : Slot)
            → holder_in (record g { pending_inspects = delete r g.pending_inspects }) k
              ≡ (if slot_eq (inspect_slot r) k then none else holder_in g k)
        holds (list_slot a) = refl
        holds (command_slot a) = refl
        holds (inspect_slot a) = ground (arith, get-delete r a g.pending_inspects)

  module _ (g : Gateway Num) where
    pub issue_list :
        (u h : String)
        → get u g.pending_lists ≡ none
        → Move (view g) (
            view (record g {
              timers = start_timer (list_timeout u h) g;
              pending_lists = set u (record { ticket = g.next_ticket }) g.pending_lists;
              next_ticket = suc g.next_ticket;
            }))
    issue_list u h free =
        issue (list_slot u) (rw free refl) holds (slot-start g (list_timeout u h)) (λ t. refl) refl
      where
        holds :
            (k : Slot)
            → holder_in
                (record g {
                  pending_lists = set u (record { ticket = g.next_ticket }) g.pending_lists;
                })
                k
              ≡ (if slot_eq (list_slot u) k then some g.next_ticket else holder_in g k)
        holds (list_slot a) =
            ground (arith, get-set u a (record { ticket = g.next_ticket }) g.pending_lists)
        holds (command_slot r) = refl
        holds (inspect_slot r) = refl

    pub issue_command :
        (r : String) (a : ContainerAction) (u : String)
        → get r g.pending_commands ≡ none
        → Move (view g) (
            view (record g {
              timers = start_timer (command_timeout r a) g;
              pending_commands =
                  set r (record { agent_uuid = u; ticket = g.next_ticket }) g.pending_commands;
              next_ticket = suc g.next_ticket;
            }))
    issue_command r a u free =
        issue (command_slot r) (rw free refl) holds (slot-start g (command_timeout r a)) (λ t. refl)
          refl
      where
        holds :
            (k : Slot)
            → holder_in
                (record g {
                  pending_commands =
                      set r (record { agent_uuid = u; ticket = g.next_ticket }) g.pending_commands;
                })
                k
              ≡ (if slot_eq (command_slot r) k then some g.next_ticket else holder_in g k)
        holds (list_slot a) = refl
        holds (command_slot a) = ground (
          arith,
          get-set r a (record { agent_uuid = u; ticket = g.next_ticket }) g.pending_commands,
        )
        holds (inspect_slot a) = refl

    pub issue_inspect :
        (r u : String)
        → get r g.pending_inspects ≡ none
        → Move (view g) (
            view (record g {
              timers = start_timer (inspect_timeout r) g;
              pending_inspects =
                  set r (record { agent_uuid = u; ticket = g.next_ticket }) g.pending_inspects;
              next_ticket = suc g.next_ticket;
            }))
    issue_inspect r u free =
        issue (inspect_slot r) (rw free refl) holds (slot-start g (inspect_timeout r)) (λ t. refl)
          refl
      where
        holds :
            (k : Slot)
            → holder_in
                (record g {
                  pending_inspects =
                      set r (record { agent_uuid = u; ticket = g.next_ticket }) g.pending_inspects;
                })
                k
              ≡ (if slot_eq (inspect_slot r) k then some g.next_ticket else holder_in g k)
        holds (list_slot a) = refl
        holds (command_slot a) = refl
        holds (inspect_slot a) = ground (
          arith,
          get-set r a (record { agent_uuid = u; ticket = g.next_ticket }) g.pending_inspects,
        )
