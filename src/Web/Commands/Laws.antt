-- ===== src/Web/Commands/Laws.antt =====
-- A container is deleted only where the user has confirmed it.
use docksight.Base.{
  String, ◌≡◌, refl, sym, ap, subst, inl, inr, Bool, true, false, not, ◌&&◌, Option, none, some,
  List, [], ◌∷◌, ◌++◌, append_nil, Bool-cases, if◌then◌else◌, arith,
}
use docksight.Protocol.Container.{ContainerAction, start, stop, restart, remove, pause, unpause}
use docksight.Web.Confirm.{
  Dialog, confirm, settle_open, dialog_step, cancelled, settlement, check_box, checked_first,
}
use docksight.Web.Confirm.Promises.{check_box-ref}
use docksight.Web.Commands.{
  ContainerRow, Variables, Asked, is_running, delete_question, variables, Commands, new_commands,
  go_on_all, go_on_after, host_of, carry_on, run_command, PageEvent, clicked, box_checked, declined,
  accepted, page_step, run_page,
}

module _ {Num : Type 0} where
  -- The dialog shows the question of the command that waits for it, and its box is checked only where the
  -- container of that command is running.
  abbrev pub Shows : Option (Asked Num) → Dialog (Asked Num) → Type 0
  Shows none d = d.request ≡ none
  Shows (some a) d =
      (d.request ≡ some (delete_question a.row)) × ((d.toggled && not (is_running a.row)) ≡ false)

  abbrev pub IsFor : Dialog (Asked Num) → Type 0
  IsFor d = Shows d.resolve_ref d

  delete_question-unchecked :
      (row : ContainerRow Num) → checked_first (delete_question row).toggle ≡ false
  delete_question-unchecked row = elim (Bool-cases (is_running row)) [
    | inl e ↦ rw e refl
    | inr e ↦ rw e refl
  ]

  confirm-IsFor :
      (a : Asked Num) (d : Dialog (Asked Num)) → IsFor (confirm a (delete_question a.row) d).0
  unfolding confirm
  confirm-IsFor a d = (refl, rw (delete_question-unchecked a.row) refl)

  -- The box is there just for a container that is running.
  check_question :
      (a : Asked Num) (b : Bool) (d : Dialog (Asked Num))
      → check_box (some (delete_question a.row)) b d
        ≡ (if is_running a.row then record d { toggled = b } else d)
  check_question a b d = elim (Bool-cases (is_running a.row)) [
    | inl e ↦ rw e refl
    | inr e ↦ rw e refl
  ]

  toggled-Shows :
      (a : Asked Num) (b : Bool) (d : Dialog (Asked Num))
      → Shows (some a) d
      → Shows (some a) (if is_running a.row then record d { toggled = b } else d)
  toggled-Shows a b d h =
      let C : Bool → Dialog (Asked Num) = λ r. if r then record d { toggled = b } else d in
      elim (Bool-cases (is_running a.row)) [
        | inl e ↦ subst (λ r. Shows (some a) (C r)) (sym e) (h.0, ground (arith, e))
        | inr e ↦ subst (λ r. Shows (some a) (C r)) (sym e) h
      ]

  check_question-Shows :
      (a : Asked Num) (b : Bool) (d : Dialog (Asked Num))
      → Shows (some a) d
      → Shows (some a) (check_box (some (delete_question a.row)) b d)
  check_question-Shows a b d h =
      subst (λ c. Shows (some a) c) (sym (check_question a b d)) (toggled-Shows a b d h)

  check_box-Shows :
      (o : Option (Asked Num)) (b : Bool) (d : Dialog (Asked Num))
      → Shows o d
      → Shows o (check_box d.request b d)
  check_box-Shows none b d h = subst (λ r. (check_box r b d).request ≡ none) (sym h) h
  check_box-Shows (some a) b d h =
      subst (λ r. Shows (some a) (check_box r b d)) (sym h.0) (check_question-Shows a b d h)

  check_box-IsFor : (b : Bool) (d : Dialog (Asked Num)) → IsFor d → IsFor (check_box d.request b d)
  check_box-IsFor b d h =
      subst (λ o. Shows o (check_box d.request b d)) (sym (check_box-ref d.request b d))
        (check_box-Shows d.resolve_ref b d h)

  module _ (fallback : Option String) where
    carry_on-IsFor :
        (host : Option String) (row : ContainerRow Num) (action : ContainerAction)
        (s : Commands Num)
        → IsFor s.dialog
        → IsFor (carry_on host row action s).dialog
    unfolding go_on_after
    carry_on-IsFor none row action s h = h
    carry_on-IsFor (some host) row remove s h =
        confirm-IsFor (record { row = row; host = host }) s.dialog
    carry_on-IsFor (some host) row start s h = h
    carry_on-IsFor (some host) row stop s h = h
    carry_on-IsFor (some host) row restart s h = h
    carry_on-IsFor (some host) row pause s h = h
    carry_on-IsFor (some host) row unpause s h = h

    page_step-IsFor :
        (e : PageEvent Num) (s : Commands Num)
        → IsFor s.dialog
        → IsFor (page_step fallback e s).dialog
    unfolding page_step run_command go_on_after dialog_step settle_open
    page_step-IsFor (clicked row action) s h = carry_on-IsFor (host_of fallback row) row action s h
    page_step-IsFor (box_checked b) s h = check_box-IsFor b s.dialog h
    page_step-IsFor declined s h = refl
    page_step-IsFor accepted s h = refl

    run_page-IsFor :
        (es : List (PageEvent Num)) (s : Commands Num)
        → IsFor s.dialog
        → IsFor (run_page fallback es s).dialog
    unfolding run_page
    run_page-IsFor [] s h = h
    run_page-IsFor (e ∷ es) s h = run_page-IsFor es (page_step fallback e s) (page_step-IsFor e s h)

    -- What a click sends at once.
    abbrev pub sends_at_once : Option String → ContainerRow Num → ContainerAction → List Variables
    sends_at_once none row action = []
    sends_at_once (some host) row remove = []
    sends_at_once (some host) row action =
        variables action false (record { row = row; host = host }) ∷ []

    -- What the deletion that waits for an answer sends when it is accepted.
    abbrev pub sends_accepted : Option (Asked Num) → Bool → List Variables
    sends_accepted none toggled = []
    sends_accepted (some a) toggled = variables remove (toggled && is_running a.row) a ∷ []

    -- What an event is to send.
    abbrev pub sends : PageEvent Num → Dialog (Asked Num) → List Variables
    sends (clicked row action) d = sends_at_once (host_of fallback row) row action
    sends accepted d = sends_accepted d.resolve_ref d.toggled
    sends (box_checked b) d = []
    sends declined d = []

    settlement-cancelled : (o : Option (Asked Num)) → go_on_all (settlement o cancelled) ≡ []
    settlement-cancelled none = refl
    settlement-cancelled (some a) = refl

    carry_on-sends :
        (host : Option String) (row : ContainerRow Num) (action : ContainerAction)
        (s : Commands Num)
        → (carry_on host row action s).sent ≡ s.sent ++ sends_at_once host row action
    unfolding go_on_after confirm
    carry_on-sends none row action s = sym (append_nil s.sent)
    carry_on-sends (some host) row remove s =
        ap (s.sent ++◌) (settlement-cancelled s.dialog.resolve_ref)
    carry_on-sends (some host) row start s = refl
    carry_on-sends (some host) row stop s = refl
    carry_on-sends (some host) row restart s = refl
    carry_on-sends (some host) row pause s = refl
    carry_on-sends (some host) row unpause s = refl

    accepted-sends :
        (o : Option (Asked Num)) (d : Dialog (Asked Num))
        → Shows o d
        → go_on_all (settlement o (record { confirmed = true; toggled = d.toggled }))
          ≡ sends_accepted o d.toggled
    accepted-sends none d h = refl
    accepted-sends (some a) d h =
        let p : d.toggled ≡ (d.toggled && is_running a.row) = ground (arith, h.1) in
        ap (λ b. variables remove b a ∷ []) p

    -- On a page where anything has happened, the next event sends just this: a click on an action other than
    -- deletion sends that action, never forced, for the row's host or else the page's; accepting the dialog
    -- sends the deletion that was asked for last, forced only if the box is checked and the container was
    -- running; a click on deletion, the box and declining send nothing.
    pub page_step-sends :
        (es : List (PageEvent Num)) (e : PageEvent Num)
        → (page_step fallback e (run_page fallback es new_commands)).sent
          ≡ (run_page fallback es new_commands).sent
            ++ sends e (run_page fallback es new_commands).dialog
    unfolding page_step run_command go_on_after dialog_step settle_open
    page_step-sends es (clicked row action) =
        carry_on-sends (host_of fallback row) row action (run_page fallback es new_commands)
    page_step-sends es (box_checked b) = refl
    page_step-sends es declined =
        let s = run_page fallback es new_commands in
        ap (s.sent ++◌) (settlement-cancelled s.dialog.resolve_ref)
    page_step-sends es accepted =
        let s = run_page fallback es new_commands in
        ap (s.sent ++◌)
          (accepted-sends s.dialog.resolve_ref s.dialog (run_page-IsFor es new_commands refl))
