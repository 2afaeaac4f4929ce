-- ===== src/Web/Rename.antt =====
-- apps/web/src/components/RenameHostDialog.tsx and hooks/useRenameHost.ts: the dialog that gives a
-- host another name, and the cached list of hosts.
pub mod Served
use docksight.Base.{
  String, Bool, true, false, not, List, [], ◌∷◌, map, Option, none, some, or_else, ◌==◌,
  if◌then◌else◌,
}
use docksight.Text.{trim}
use docksight.Hosts.{HostDto}
use docksight.Web.Toasts.{Toast, success}
use docksight.Web.HostName.{NamedHost, host_display_name, validate_host_display_name}

-- The state of the dialog and of its mutation, whose error the query library keeps until the next
-- call.
pub record RenameDialog : Type 0 where
  pub host_id : String
  pub value : String
  pub local_error : Option String
  pub api_error : Option String
  pub is_pending : Bool
  pub is_open : Bool

-- What `mutateAsync` is given.
pub record RenameRequest : Type 0 where
  pub host_id : String
  pub display_name : String

-- The dialog for a host starts with the name that is shown.
unfoldable pub open_rename : String → NamedHost → RenameDialog
open_rename host_id host = record {
  host_id = host_id;
  value = host_display_name host;
  local_error = none;
  api_error = none;
  is_pending = false;
  is_open = true;
}

-- The error in the form.
unfoldable pub rename_error : RenameDialog → Option String
rename_error d = elim d.local_error [ none ↦ d.api_error | some e ↦ some e ]

abbrev submit_checked : Option String → RenameDialog → RenameDialog × Option RenameRequest
submit_checked (some invalid) d = (record d { local_error = some invalid }, none)
submit_checked none d = (
  record d { local_error = none; api_error = none; is_pending = true },
  some (record { host_id = d.host_id; display_name = trim d.value }),
)

-- onSubmit, up to the call.
unfoldable pub on_submit : RenameDialog → RenameDialog × Option RenameRequest
on_submit d = submit_checked (validate_host_display_name d.value) d

-- onSubmit after the answer: none, or the message of an error.
unfoldable pub on_answered : Option String → RenameDialog → RenameDialog
on_answered none d = record d { is_pending = false; is_open = false }
on_answered (some message) d = record d { is_pending = false; api_error = some message }

-- onChange of the input, which is disabled while a call is under way; the mutation is reset, which
-- clears its error.
unfoldable pub on_change : String → RenameDialog → RenameDialog
on_change value d =
    if d.is_pending then d else record d { value = value; local_error = none; api_error = none }

-- The toast after a success, over the names of the answer; `id` is that of the toast.
unfoldable pub renamed_toast : (id : String) → NamedHost → Toast
renamed_toast id updated = record {
  id = id;
  tone = success;
  title = "Host renamed";
  description = some (or_else updated.display_name updated.hostname);
}

-- The Escape key, the click beside the form, and the Cancel button.
unfoldable pub on_dismiss : RenameDialog → RenameDialog
on_dismiss d = if d.is_pending then d else record d { is_open = false }

module _ {Num : Type 0} where
  -- `{ ...host, ...updated }`, where the server's answer has every field.
  abbrev pub replace_host : HostDto Num → HostDto Num → HostDto Num
  replace_host updated host = if host.id == updated.id then updated else host

  -- The cached hosts after an answer.
  unfoldable pub set_renamed :
      HostDto Num → Option (List (HostDto Num)) → Option (List (HostDto Num))
  set_renamed updated none = none
  set_renamed updated (some current) = some (map (replace_host updated) current)

  -- `hosts.find((host) => host.id === id)`
  unfoldable pub find_host : String → List (HostDto Num) → Option (HostDto Num)
  find_host id [] = none
  find_host id (h ∷ hosts) = let rest = find_host id hosts in if h.id == id then some h else rest
