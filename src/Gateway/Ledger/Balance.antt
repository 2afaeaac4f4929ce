-- ===== src/Gateway/Ledger/Balance.antt =====
-- Every move keeps a ledger balanced.
use docksight.Base.{
  ℕ, ◌≡◌, none, some, eqb, eqb_refl, arith, if◌then◌else◌, AllSome, Option-cases, inl, inr,
}
use docksight.Gateway.Ledger.{
  Slot, slot_eq, slot_eq_to, slot_eq_refl, Ledger, Move, keep, issue, settle, Moves, stay, after,
  Balanced,
}

module _ {v : Ledger} (w : Ledger) (b : Balanced v) where
  module _ (h : (s : Slot) → w.holder s ≡ v.holder s) (l : (t : ℕ) → w.slot t ≡ v.slot t) where
    keep-held : (k : Slot) → AllSome (λ t. w.slot t ≡ some k) (w.holder k)
    keep-held k = elim (Option-cases (v.holder k)) [
      | inl e ↦ ground (arith, h k)
      | inr (t, e) ↦ ground (arith, h k, l t, b.held k)
    ]

    keep-timed : (t : ℕ) → AllSome (λ s. w.holder s ≡ some t) (w.slot t)
    keep-timed t = elim (Option-cases (v.slot t)) [
      | inl e ↦ ground (arith, l t)
      | inr (s, e) ↦ ground (arith, l t, h s, b.timed t)
    ]

  module _ (s : Slot) (free : v.holder s ≡ none)
      (h : (k : Slot) → w.holder k ≡ (if slot_eq s k then some v.next else v.holder k))
      (l : (t : ℕ) → w.slot t ≡ (if eqb v.next t then some s else v.slot t)) where
    issue-held : (k : Slot) → AllSome (λ t. w.slot t ≡ some k) (w.holder k)
    issue-held k = elim (Option-cases (v.holder k)) [
      | inl e ↦ ground (arith, h k, l v.next, slot_eq_to s k, eqb_refl v.next)
      | inr (t, e) ↦
          ground (arith, h k, l v.next, slot_eq_to s k, eqb_refl v.next, l t, b.held k, b.fresh t)
    ]

    issue-timed : (t : ℕ) → AllSome (λ k. w.holder k ≡ some t) (w.slot t)
    issue-timed t = elim (Option-cases (v.slot t)) [
      | inl e ↦ ground (arith, l t, h s, slot_eq_refl s)
      | inr (k, e) ↦ ground (arith, l t, h s, slot_eq_refl s, h k, slot_eq_to s k, b.timed t)
    ]

  module _ (s : Slot) (u : ℕ) (busy : v.holder s ≡ some u)
      (h : (k : Slot) → w.holder k ≡ (if slot_eq s k then none else v.holder k))
      (l : (t : ℕ) → w.slot t ≡ (if eqb u t then none else v.slot t)) where
    settle-held : (k : Slot) → AllSome (λ t. w.slot t ≡ some k) (w.holder k)
    settle-held k = elim (Option-cases (v.holder k)) [
      | inl e ↦ ground (arith, h k)
      | inr (t, e) ↦ ground (arith, h k, l t, b.held k, b.held s, slot_eq_refl k)
    ]

    settle-timed : (t : ℕ) → AllSome (λ k. w.holder k ≡ some t) (w.slot t)
    settle-timed t = elim (Option-cases (v.slot t)) [
      | inl e ↦ ground (arith, l t)
      | inr (k, e) ↦ ground (arith, l t, h k, slot_eq_to s k, b.timed t)
    ]

Move-Balanced : {v w : Ledger} → Move v w → Balanced v → Balanced w
Move-Balanced {v} {w} (keep h l c n) b = record {
  held = keep-held w b h l;
  timed = keep-timed w b h l;
  fresh = λ t p. ground (arith, l t, c t, b.fresh t);
  once = λ t p. ground (arith, l t, c t, b.once t);
}
Move-Balanced {v} {w} (issue s free h l c n) b = record {
  held = issue-held w b s free h l;
  timed = issue-timed w b s free h l;
  fresh = λ t p. ground (arith, l t, c t, b.fresh t);
  once = λ t p. ground (arith, l t, c t, b.once t, b.fresh t);
}
Move-Balanced {v} {w} (settle s u busy h l c n) b = record {
  held = settle-held w b s u busy h l;
  timed = settle-timed w b s u busy h l;
  fresh = λ t p. ground (arith, l t, c t, b.fresh t, b.held s);
  once = λ t p. ground (arith, l t, c t, b.once t, b.held s);
}

-- So does every sequence of moves.
pub Moves-Balanced : {v w : Ledger} → Moves v w → Balanced v → Balanced w
Moves-Balanced stay b = b
Moves-Balanced (after ms m) b = Move-Balanced m (Moves-Balanced ms b)

pub Moves-append : {v w x : Ledger} → Moves v w → Moves w x → Moves v x
Moves-append ms stay = ms
Moves-append ms (after ns m) = after (Moves-append ms ns) m
