-- ===== src/Web/Status.antt =====
-- apps/web/src/lib/status.ts and apps/web/src/lib/ports.ts. toLowerCase and toUpperCase are parameters.
use docksight.Base.{
  String, Bool, ◌||◌, Option, none, some, List, [], ◌∷◌, ◌==◌, or_else, if◌then◌else◌,
}
use docksight.Text.{trim, concat, starts_with}
use docksight.Protocol.Container.{ContainerPort}

pub data StatusTone : Type 0 where
  success warning danger neutral : StatusTone

-- The states that have each tone.
abbrev is_success : String → Bool
is_success value =
    value == "online"
    || value == "running"
    || value == "healthy"
    || value == "up"
    || starts_with "up " value

abbrev is_warning : String → Bool
is_warning value =
    value == "restarting"
    || value == "paused"
    || value == "created"
    || value == "unknown"
    || value == "degraded"
    || value == "connecting"

abbrev is_danger : String → Bool
is_danger value =
    value == "offline"
    || value == "dead"
    || value == "error"
    || value == "removing"
    || starts_with "exited" value

-- statusTone
unfoldable pub status_tone : (lower : String → String) → Option String → StatusTone
unfolding starts_with trim
status_tone lower status =
    let value = lower (trim (or_else status "")) in
    if is_success value
    then success
    else if is_warning value
    then warning
    else if is_danger value
    then danger
    else neutral

-- `port.public ? `${port.public}:${port.private}` : `${port.private}``, where `shown` is the text of a number.
abbrev pub port_text : {Num : Type 0} → (shown : Num → String) → ContainerPort Num → String
port_text shown p =
    if p.public == "" then shown p.private else concat p.public (concat ":" (shown p.private))

abbrev pub ports_text : {Num : Type 0} → (shown : Num → String) → List (ContainerPort Num) → String
ports_text shown [] = ""
ports_text shown (p ∷ []) = port_text shown p
ports_text shown (p ∷ q ∷ ps) = concat (port_text shown p) (concat ", " (ports_text shown (q ∷ ps)))

-- formatPorts
unfoldable pub format_ports :
    {Num : Type 0} → (shown : Num → String) → Option (List (ContainerPort Num)) → String
format_ports shown none = "-"
format_ports shown (some []) = "-"
format_ports shown (some (p ∷ ps)) = ports_text shown (p ∷ ps)
