-- ===== src/Web/Confirm.antt =====
-- apps/web/src/components/ConfirmProvider.tsx: the dialog behind a promise. `A` is what a promise is
-- known by; an operation says which promise it resolves, and with what.
pub mod Promises
use docksight.Base.{
  String, Bool, true, false, Option, none, some, List, [], ◌∷◌, ◌++◌, is_some, or_else,
  if◌then◌else◌,
}

pub record ConfirmToggle : Type 0 where
  pub label : String
  pub description : Option String
  pub default_checked : Option Bool

pub record ConfirmRequest : Type 0 where
  pub title : String
  pub description : String
  pub confirm_label : String
  pub cancel_label : Option String
  pub toggle : Option ConfirmToggle

pub record ConfirmResult : Type 0 where
  pub confirmed : Bool
  pub toggled : Bool

abbrev pub cancelled : ConfirmResult
cancelled = record { confirmed = false; toggled = false }

-- `resolve_ref` is the promise whose resolve function the reference has.
pub record Dialog (A : Type 0) : Type 0 where
  pub request : Option ConfirmRequest
  pub toggled : Bool
  pub resolve_ref : Option A

-- The promise that is resolved and what it is resolved with.
abbrev pub settlement : {A : Type 0} → Option A → ConfirmResult → List (A × ConfirmResult)
settlement none r = []
settlement (some a) r = (a, r) ∷ []

-- `next.toggle?.defaultChecked ?? false`
abbrev pub checked_first : Option ConfirmToggle → Bool
checked_first none = false
checked_first (some t) = or_else t.default_checked false

module _ {A : Type 0} where
  abbrev pub new_dialog : Dialog A
  new_dialog = record { request = none; toggled = false; resolve_ref = none }

  unfoldable pub settle_open : ConfirmResult → Dialog A → Dialog A × List (A × ConfirmResult)
  settle_open r d = (record d { resolve_ref = none; request = none }, settlement d.resolve_ref r)

  unfoldable pub confirm : A → ConfirmRequest → Dialog A → Dialog A × List (A × ConfirmResult)
  confirm a next d = (
    record { request = some next; toggled = checked_first next.toggle; resolve_ref = some a },
    settlement d.resolve_ref cancelled,
  )

-- What happens to the dialog: a caller asks, the user changes the checkbox, dismisses the dialog by
-- Escape, the backdrop or the cancel button, or confirms.
pub data DialogEvent (A : Type 0) : Type 0 where
  asked : A → ConfirmRequest → DialogEvent A
  checked : Bool → DialogEvent A
  dismissed confirmed : DialogEvent A

module _ {A : Type 0} where
  -- The checkbox is rendered where the request offers it.
  abbrev pub check_box : Option ConfirmRequest → Bool → Dialog A → Dialog A
  check_box none b d = d
  check_box (some r) b d = if is_some r.toggle then record d { toggled = b } else d

  unfoldable pub dialog_step : DialogEvent A → Dialog A → Dialog A × List (A × ConfirmResult)
  unfolding settle_open confirm
  dialog_step (asked a next) d = confirm a next d
  dialog_step (checked b) d = (check_box d.request b d, [])
  dialog_step dismissed d = settle_open cancelled d
  dialog_step confirmed d = settle_open (record { confirmed = true; toggled = d.toggled }) d

  unfoldable pub run : List (DialogEvent A) → Dialog A → Dialog A × List (A × ConfirmResult)
  unfolding dialog_step
  run [] d = (d, [])
  run (e ∷ es) d =
      let now = dialog_step e d in let later = run es now.0 in (later.0, now.1 ++ later.1)
