-- ===== src/Web/Environment.antt =====
-- The environment variables in apps/web/src/components/ContainerInspectDrawer.tsx: hideValue and
-- EnvironmentSection. toLocaleLowerCase is a parameter.
pub mod Hidden
use docksight.Base.{
  String, Bool, true, false, not, ◌&&◌, ◌||◌, List, [], ◌∷◌, Option, none, some, or_else, eqb,
  if◌then◌else◌,
}
use docksight.Text.{code, concat, includes}

-- The parts of a name whose value is hidden.
abbrev pub hidden_parts : List String
hidden_parts =
    "pass" ∷ "database_url" ∷ "db_url" ∷ "key" ∷ "token" ∷ "secret" ∷ "auth" ∷ "cred" ∷ "private"
    ∷ "certificate" ∷ "cert" ∷ "ssh" ∷ "rsa" ∷ "pem" ∷ "pfx" ∷ "p12" ∷ "p7b" ∷ "p7c" ∷ "p7m" ∷ "p7s"
    ∷ "p7r" ∷ "p7t" ∷ "p7u" ∷ "p7v" ∷ "p7w" ∷ "p7x" ∷ "p7y" ∷ "p7z" ∷ []

abbrev pub includes_one : List String → String → Bool
includes_one [] s = false
includes_one (part ∷ parts) s = includes part s || includes_one parts s

unfoldable pub hide_value : (lower : String → String) → String → Bool
unfolding includes
hide_value lower key = includes_one hidden_parts (lower key)

-- `entry.split('=')[0]`
unfoldable pub entry_key : String → String
entry_key String.[] = ""
entry_key (String.◌∷◌ c s) =
    let rest = entry_key s in if eqb (code c) 61 then "" else String.◌∷◌ c rest

-- `entry.split('=')[1]`
unfoldable pub entry_value : String → Option String
unfolding entry_key
entry_value String.[] = none
entry_value (String.◌∷◌ c s) =
    let rest = entry_value s in if eqb (code c) 61 then some (entry_key s) else rest

-- What a row of the section shows; an undefined value shows nothing.
unfoldable pub shown_value : (lower : String → String) → (revealed : Bool) → String → String
unfolding hide_value entry_key entry_value
shown_value lower revealed entry =
    if hide_value lower (entry_key entry) && not revealed
    then "••••••••••••"
    else or_else (entry_value entry) ""

-- What its button copies; an undefined value is written as such.
unfoldable pub copied_value : String → String
unfolding entry_key entry_value
copied_value entry = concat (entry_key entry) (concat "=" (or_else (entry_value entry) "undefined"))
