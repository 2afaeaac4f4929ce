-- ===== src/Gateway/Ledger.antt =====
-- What a gateway promises of its promises, with sockets, messages and maps left out. A slot is what
-- an unanswered request stands under; a ledger knows the ticket of each slot, the slot of each
-- running timer, how often each ticket was settled, and the next ticket.
pub mod Balance
pub mod View
pub mod Calls
pub mod Disconnect
pub mod Handlers
pub mod Refinement
use docksight.Base.{
  ℕ, suc, String, Bool, true, false, ◌≡◌, refl, ◌↔◌, Option, none, some, eqb, ◌==◌, eq_iff, arith,
  if◌then◌else◌, AllSome, ◌≤◌, ◌<◌, ◌+◌,
}

pub data Slot : Type 0 where
  list_slot : (agent_uuid : String) → Slot
  command_slot : (request_id : String) → Slot
  inspect_slot : (request_id : String) → Slot

abbrev pub slot_eq : Slot → Slot → Bool
slot_eq (list_slot a) (list_slot b) = a == b
slot_eq (command_slot a) (command_slot b) = a == b
slot_eq (inspect_slot a) (inspect_slot b) = a == b
slot_eq _ _ = false

pub slot_eq_to : (s t : Slot) → slot_eq s t ≡ true → s ≡ t
slot_eq_to (list_slot a) (list_slot b) h = ground (arith, eq_iff a b)
slot_eq_to (command_slot a) (command_slot b) h = ground (arith, eq_iff a b)
slot_eq_to (inspect_slot a) (inspect_slot b) h = ground (arith, eq_iff a b)
slot_eq_to _ _ h = cc

pub slot_eq_refl : (s : Slot) → slot_eq s s ≡ true
slot_eq_refl (list_slot a) = ground (arith, eq_iff a a)
slot_eq_refl (command_slot a) = ground (arith, eq_iff a a)
slot_eq_refl (inspect_slot a) = ground (arith, eq_iff a a)

pub record Ledger : Type 0 where
  pub holder : Slot → Option ℕ
  pub slot : ℕ → Option Slot
  pub settled : ℕ → ℕ
  pub next : ℕ

-- A request is opened under a free slot, is settled under the slot that holds it, or nothing of
-- the ledger moves.
pub data Move (v w : Ledger) : Type 0 where
  keep :
      ((s : Slot) → w.holder s ≡ v.holder s)
      → ((t : ℕ) → w.slot t ≡ v.slot t)
      → ((t : ℕ) → w.settled t ≡ v.settled t)
      → w.next ≡ v.next
      → Move v w
  issue :
      (s : Slot)
      → v.holder s ≡ none
      → ((k : Slot) → w.holder k ≡ (if slot_eq s k then some v.next else v.holder k))
      → ((t : ℕ) → w.slot t ≡ (if eqb v.next t then some s else v.slot t))
      → ((t : ℕ) → w.settled t ≡ v.settled t)
      → w.next ≡ suc v.next
      → Move v w
  settle :
      (s : Slot) (u : ℕ)
      → v.holder s ≡ some u
      → ((k : Slot) → w.holder k ≡ (if slot_eq s k then none else v.holder k))
      → ((t : ℕ) → w.slot t ≡ (if eqb u t then none else v.slot t))
      → ((t : ℕ) → w.settled t ≡ (if eqb u t then suc (v.settled t) else v.settled t))
      → w.next ≡ v.next
      → Move v w

pub data Moves (v : Ledger) : Ledger → Type 0 where
  stay : Moves v v
  after : {w x : Ledger} → Moves v w → Move w x → Moves v x

-- How many promises wait on a timer: none or one.
abbrev pub waiting : Option Slot → ℕ
waiting none = 0
waiting (some s) = 1

-- Every unanswered request has its timer and every timer its request; a ticket that was not given
-- out is unknown; every other is either waiting, or settled, and that once.
pub record Balanced (v : Ledger) : Type 0 where
  pub held : (s : Slot) → AllSome (λ t. v.slot t ≡ some s) (v.holder s)
  pub timed : (t : ℕ) → AllSome (λ s. v.holder s ≡ some t) (v.slot t)
  pub fresh : (t : ℕ) → v.next ≤ t → (v.slot t ≡ none) × (v.settled t ≡ 0)
  pub once : (t : ℕ) → t < v.next → v.settled t + waiting (v.slot t) ≡ 1
