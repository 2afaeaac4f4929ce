-- ===== src/Web/HostName.antt =====
-- apps/web/src/lib/host-name.ts
pub mod Shown
use docksight.Base.{String, Option, none, some, leb, ltb, or_else, ◌==◌, if◌then◌else◌}
use docksight.Text.{trim, concat, units}
use docksight.Hosts.{label}

-- What the functions take of a host.
pub record NamedHost : Type 0 where
  pub hostname : String
  pub display_name : Option String

-- hostDisplayName
unfoldable pub host_display_name : NamedHost → String
host_display_name h = or_else (label h.display_name) h.hostname

-- hostInventoryLabel
unfoldable pub host_inventory_label : NamedHost → String
unfolding host_display_name
host_inventory_label h =
    let name = host_display_name h in
    if name == h.hostname then h.hostname else concat name (concat " (" (concat h.hostname ")"))

-- validateHostDisplayName: the refusal, if there is one.
unfoldable pub validate_host_display_name : String → Option String
validate_host_display_name value =
    let name = trim value in
    if name == ""
    then some "Display name must not be empty"
    else if ltb 64 (units name)
    then some "Display name must be at most 64 characters"
    else none
