-- ===== src/Web/Toasts/Gone.antt =====
-- No toast stays for ever.
use docksight.Base.{
  String, Bool, true, false, ◌≡◌, refl, ◌||◌, List, [], ◌∷◌, ◌++◌, map, ◌==◌, eq_iff, eq_refl,
  Bool-cases, inl, inr, arith, ◌∙◌,
}
use docksight.Web.Toasts.{
  Toast, Toasts, no_toasts, without_toast, without_timer, dismiss, push, timed_out, ToastEvent,
  pushed, dismissed, elapsed, toast_step, toast_run,
}

abbrev has : String → List String → Bool
has id [] = false
has id (t ∷ timers) = t == id || has id timers

-- Every toast has a timer that is still to run out.
abbrev IsCovered : List Toast → List String → Type 0
IsCovered [] timers = Unit
IsCovered (t ∷ toasts) timers = (has t.id timers ≡ true) × IsCovered toasts timers

has-append : (id : String) (xs ys : List String) → has id (xs ++ ys) ≡ (has id xs || has id ys)
has-append id [] ys = refl
has-append id (x ∷ xs) ys = ground (arith, has-append id xs ys)

IsCovered-append :
    (toasts : List Toast) (timers more : List String)
    → IsCovered toasts timers
    → IsCovered toasts (timers ++ more)
IsCovered-append [] timers more h = tt
IsCovered-append (t ∷ toasts) timers more (h, hs) =
    (ground (arith, has-append t.id timers more, h), IsCovered-append toasts timers more hs)

push-IsCovered :
    (toasts : List Toast) (t : Toast) (timers : List String)
    → IsCovered toasts timers
    → has t.id timers ≡ true
    → IsCovered (toasts ++ (t ∷ [])) timers
push-IsCovered [] t timers h e = (e, tt)
push-IsCovered (u ∷ toasts) t timers (h, hs) e = (h, push-IsCovered toasts t timers hs e)

without_toast-IsCovered :
    (id : String) (toasts : List Toast) (timers : List String)
    → IsCovered toasts timers
    → IsCovered (without_toast id toasts) timers
unfolding without_toast
without_toast-IsCovered id [] timers h = tt
without_toast-IsCovered id (t ∷ toasts) timers (h, hs) = elim (Bool-cases (t.id == id)) [
  | inl e ↦ rw e (without_toast-IsCovered id toasts timers hs)
  | inr e ↦ rw e (h, without_toast-IsCovered id toasts timers hs)
]

has-without_timer :
    (id k : String) (timers : List String)
    → (k == id) ≡ false
    → has k (without_timer id timers) ≡ has k timers
unfolding without_timer
has-without_timer id k [] e = refl
has-without_timer id k (t ∷ timers) e = elim (Bool-cases (t == id)) [
  | inl same ↦
      let other : (t == k) ≡ false =
        ground (arith, eq_iff t id, eq_iff t k, eq_iff k id, same, e) in
      rw (same, other) (has-without_timer id k timers e)
  | inr differs ↦ rw differs (rw (has-without_timer id k timers e) refl)
]

timed_out-IsCovered :
    (id : String) (toasts : List Toast) (timers : List String)
    → IsCovered toasts timers
    → IsCovered (without_toast id toasts) (without_timer id timers)
unfolding without_toast
timed_out-IsCovered id [] timers h = tt
timed_out-IsCovered id (t ∷ toasts) timers (h, hs) = elim (Bool-cases (t.id == id)) [
  | inl e ↦ rw e (timed_out-IsCovered id toasts timers hs)
  | inr e ↦ rw e (has-without_timer id t.id timers e ∙ h, timed_out-IsCovered id toasts timers hs)
]

step-IsCovered :
    (e : ToastEvent) (s : Toasts)
    → IsCovered s.toasts s.timers
    → IsCovered (toast_step e s).toasts (toast_step e s).timers
unfolding push dismiss timed_out
step-IsCovered (pushed t) s h =
    push-IsCovered s.toasts t _ (IsCovered-append s.toasts s.timers (t.id ∷ []) h)
      (ground (arith, has-append t.id s.timers (t.id ∷ []), eq_refl t.id))
step-IsCovered (dismissed id) s h = without_toast-IsCovered id s.toasts s.timers h
step-IsCovered (elapsed id) s h = timed_out-IsCovered id s.toasts s.timers h

run-IsCovered :
    (es : List ToastEvent) (s : Toasts)
    → IsCovered s.toasts s.timers
    → IsCovered (toast_run es s).toasts (toast_run es s).timers
unfolding toast_run
run-IsCovered [] s h = h
run-IsCovered (e ∷ es) s h = run-IsCovered es (toast_step e s) (step-IsCovered e s h)

-- The toasts that are left when the timers with these ids have run out.
all_elapsed-empty :
    (ids : List String) (s : Toasts)
    → IsCovered s.toasts ids
    → (toast_run (map elapsed ids) s).toasts ≡ []
unfolding toast_run timed_out dismiss without_toast
all_elapsed-empty [] s h = empty s.toasts h
  where
    empty : (toasts : List Toast) → IsCovered toasts [] → toasts ≡ []
    empty [] e = refl
    empty (t ∷ toasts) (e, es) = absurd (ground (arith, e))
all_elapsed-empty (id ∷ ids) s h = all_elapsed-empty ids (timed_out id s) (later s.toasts h)
  where
    later :
        (toasts : List Toast)
        → IsCovered toasts (id ∷ ids)
        → IsCovered (without_toast id toasts) ids
    later [] e = tt
    later (t ∷ toasts) (e, es) = elim (Bool-cases (t.id == id)) [
      | inl same ↦ rw same (later toasts es)
      | inr differs ↦
          let other : (id == t.id) ≡ false =
            ground (arith, eq_iff id t.id, eq_iff t.id id, differs) in
          rw differs (ground (arith, e, other), later toasts es)
    ]

-- Whatever is pushed and dismissed, and in whatever order: when the timers that are still running have
-- run out, no toast is left.
pub toasts_go :
    (es : List ToastEvent)
    → let s = toast_run es no_toasts in (toast_run (map elapsed s.timers) s).toasts ≡ []
toasts_go es = all_elapsed-empty _ _ (run-IsCovered es no_toasts tt)
