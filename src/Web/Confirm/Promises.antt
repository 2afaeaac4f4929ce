-- ===== src/Web/Confirm/Promises.antt =====
-- Every promise of the dialog is resolved once.
use docksight.Base.{
  ◌≡◌, refl, sym, ap, ◌∙◌, Bool, Option, none, some, List, [], ◌∷◌, ◌++◌, map, append_assoc,
  append_nil, inl, inr, Bool-cases, is_some,
}
use docksight.Web.Confirm.{
  ConfirmRequest, ConfirmResult, cancelled, Dialog, settlement, new_dialog, settle_open, confirm,
  DialogEvent, asked, checked, dismissed, confirmed, check_box, dialog_step, run,
}

module _ {A : Type 0} where
  -- What the callers have asked for, in order.
  abbrev pub asked_by : List (DialogEvent A) → List A
  asked_by [] = []
  asked_by (asked a next ∷ es) = a ∷ asked_by es
  asked_by (checked b ∷ es) = asked_by es
  asked_by (dismissed ∷ es) = asked_by es
  asked_by (confirmed ∷ es) = asked_by es

  abbrev pub open_promise : Option A → List A
  open_promise none = []
  open_promise (some a) = a ∷ []

  settlement-open :
      (o : Option A) (r : ConfirmResult) → map (λ p. p.0) (settlement o r) ≡ open_promise o
  settlement-open none r = refl
  settlement-open (some a) r = refl

  map-append :
      (xs ys : List (A × ConfirmResult))
      → map (λ p. p.0) (xs ++ ys) ≡ map (λ p. p.0) xs ++ map (λ p. p.0) ys
  map-append [] ys = refl
  map-append (x ∷ xs) ys = ap (x.0 ∷◌) (map-append xs ys)

  pub check_box-ref :
      (o : Option ConfirmRequest) (b : Bool) (d : Dialog A)
      → (check_box o b d).resolve_ref ≡ d.resolve_ref
  check_box-ref none b d = refl
  check_box-ref (some r) b d = elim (Bool-cases (is_some r.toggle)) [
    | inl e ↦ rw e refl
    | inr e ↦ rw e refl
  ]

  -- The promises that are resolved by then, and the open one.
  abbrev promises : Dialog A × List (A × ConfirmResult) → List A
  promises now = map (λ p. p.0) now.1 ++ open_promise now.0.resolve_ref

  dialog_step-promises :
      (e : DialogEvent A) (d : Dialog A)
      → promises (dialog_step e d) ≡ open_promise d.resolve_ref ++ asked_by (e ∷ [])
  unfolding dialog_step settle_open confirm
  dialog_step-promises (asked a next) d =
      ap (◌++ (a ∷ [])) (settlement-open d.resolve_ref cancelled)
  dialog_step-promises (checked b) d =
      ap open_promise (check_box-ref d.request b d) ∙ sym (append_nil (open_promise d.resolve_ref))
  dialog_step-promises dismissed d = ap (◌++ []) (settlement-open d.resolve_ref cancelled)
  dialog_step-promises confirmed d = ap (◌++ []) (settlement-open d.resolve_ref _)

  asked_by-next :
      (e : DialogEvent A) (es : List (DialogEvent A))
      → asked_by (e ∷ []) ++ asked_by es ≡ asked_by (e ∷ es)
  asked_by-next (asked a next) es = refl
  asked_by-next (checked b) es = refl
  asked_by-next dismissed es = refl
  asked_by-next confirmed es = refl

  run-promises :
      (es : List (DialogEvent A)) (d : Dialog A)
      → promises (run es d) ≡ open_promise d.resolve_ref ++ asked_by es
  unfolding run
  run-promises [] d = sym (append_nil (open_promise d.resolve_ref))
  run-promises (e ∷ es) d =
      let now = dialog_step e d in
      let later = run es now.0 in
      ap (◌++ open_promise later.0.resolve_ref) (map-append now.1 later.1)
      ∙ append_assoc (map (λ p. p.0) now.1) (map (λ p. p.0) later.1)
          (open_promise later.0.resolve_ref)
      ∙ ap (map (λ p. p.0) now.1 ++◌) (run-promises es now.0)
      ∙ sym (append_assoc (map (λ p. p.0) now.1) (open_promise now.0.resolve_ref) (asked_by es))
      ∙ ap (◌++ asked_by es) (dialog_step-promises e d)
      ∙ append_assoc (open_promise d.resolve_ref) (asked_by (e ∷ [])) (asked_by es)
      ∙ ap (open_promise d.resolve_ref ++◌) (asked_by-next e es)

  -- Whatever the callers and the user do, the promises that have been resolved, in the order in which they
  -- were, and then the one that is open, if any, are exactly the promises that callers were given, in the
  -- order in which they asked: each is resolved once, and none but the last can be left open.
  pub run_settles :
      (es : List (DialogEvent A))
      → map (λ p. p.0) (run es new_dialog).1 ++ open_promise (run es new_dialog).0.resolve_ref
        ≡ asked_by es
  run_settles es = run-promises es new_dialog
