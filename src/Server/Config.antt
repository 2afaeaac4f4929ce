-- ===== src/Server/Config.antt =====
-- What the server reads of its environment: apps/server/src/auth/auth.config.ts,
-- apps/server/src/common/database/database.config.ts, and resolveCorsOrigin of
-- apps/server/src/main.ts.
pub mod Duration
pub mod Boot
use docksight.Base.{
  ℕ, String, Bool, true, false, not, ◌&&◌, ◌||◌, ◌==◌, List, [], ◌∷◌, map, Option, none, some,
  or_else, eqb, leb, ltb, if◌then◌else◌,
}
use docksight.Json.{filled}
use docksight.Text.{code, concat, trim, trim_start, units, is_blank}

-- A value, or the message of the error that stops the start of the server.
pub data Config (A : Type 0) : Type 0 where
  loaded : A → Config A
  failed : (message : String) → Config A

pub record AuthEnv : Type 0 where
  pub jwt_secret : String
  pub jwt_expires_in : String

-- `\d`
abbrev pub is_digit : ℕ → Bool
is_digit c = leb 48 c && leb c 57

-- What is left after the longest run of digits, and whether a text starts with one.
unfoldable pub skip_digits : String → String
skip_digits String.[] = ""
skip_digits (String.◌∷◌ c s) =
    let rest = skip_digits s in if is_digit (code c) then rest else String.◌∷◌ c s

abbrev pub starts_digit : String → Bool
starts_digit String.[] = false
starts_digit (String.◌∷◌ c s) = is_digit (code c)

-- A lower case letter of the pattern, without regard to case.
abbrev pub is_letter : ℕ → ℕ → Bool
is_letter lower c = eqb c lower || eqb (docksight.Base.◌+◌ c 32) lower

-- `(ms|s|m|h|d|w|y)?$`
abbrev pub is_unit : String → Bool
is_unit String.[] = true
is_unit (String.◌∷◌ c String.[]) =
    is_letter 115 (code c)
    || is_letter 109 (code c)
    || is_letter 104 (code c)
    || is_letter 100 (code c)
    || is_letter 119 (code c)
    || is_letter 121 (code c)
is_unit (String.◌∷◌ c (String.◌∷◌ d String.[])) = is_letter 109 (code c) && is_letter 115 (code d)
is_unit (String.◌∷◌ c (String.◌∷◌ d (String.◌∷◌ e s))) = false

-- `(\.\d+)?`: what is left after it; a point without a digit matches nothing of the pattern.
unfoldable pub after_fraction : String → Option String
unfolding skip_digits
after_fraction String.[] = some ""
after_fraction (String.◌∷◌ c s) =
    if eqb (code c) 46
    then (if starts_digit s then some (skip_digits s) else none)
    else some (String.◌∷◌ c s)

abbrev pub ends_in_unit : Option String → Bool
ends_in_unit none = false
ends_in_unit (some s) = is_unit (trim_start s)

-- `DURATION_PATTERN.test(s)`
unfoldable pub is_duration : String → Bool
unfolding skip_digits after_fraction trim_start
is_duration s = starts_digit s && ends_in_unit (after_fraction (skip_digits s))

-- authConfig; `decimal` writes a length as a text.
unfoldable pub auth_config :
    (decimal : ℕ → String) → (jwt_secret jwt_expires_in : Option String) → Config AuthEnv
unfolding is_duration units trim
auth_config decimal jwt_secret jwt_expires_in =
    let secret = or_else jwt_secret "" in
    let expires_in = trim (or_else jwt_expires_in "12h") in
    if secret == ""
    then failed
        "JWT_SECRET is required. Generate one with: node -e \"console.log(require('crypto').randomBytes(48).toString('base64url'))\""
    else if ltb (units secret) 32
    then failed (
        concat "JWT_SECRET must be at least 32 characters (got "
          (concat (decimal (units secret)) ")."))
    else if is_duration expires_in
    then loaded (record { jwt_secret = secret; jwt_expires_in = expires_in })
    else failed (
        concat "JWT_EXPIRES_IN must be a duration like \"900\", \"30m\" or \"12h\" (got \""
          (concat expires_in "\")."))

-- The parts of a URL, as they stand in the environment; the port as `String(Number(port))`.
pub record DatabaseParts : Type 0 where
  pub host : String
  pub port : String
  pub user : String
  pub password : String
  pub name : String

-- buildDatabaseUrl; `encode` is `encodeURIComponent`.
unfoldable pub build_database_url : (encode : String → String) → DatabaseParts → String
build_database_url encode p = concat "postgresql://" (
    concat (encode p.user) (
      concat ":" (
        concat (encode p.password) (
          concat "@" (
            concat p.host
              (concat ":" (concat p.port (concat "/" (concat p.name "?schema=public")))))))))

-- The variables DATABASE_URL, _HOST, _PORT, _USER, _PASSWORD and _NAME.
pub record DatabaseVars : Type 0 where
  pub url : Option String
  pub host : Option String
  pub port : Option String
  pub user : Option String
  pub password : Option String
  pub name : Option String

abbrev pub database_parts : (number : String → String) → DatabaseVars → DatabaseParts
database_parts number e = record {
  host = or_else e.host "localhost";
  port = number (or_else e.port "5432");
  user = or_else e.user "docksight";
  password = or_else e.password "docksight";
  name = or_else e.name "docksight";
}

-- databaseConfig, of which the URL is used; `number` is `String(Number(s))`.
unfoldable pub database_url : (encode number : String → String) → DatabaseVars → String
database_url encode number e =
    or_else (filled e.url) (build_database_url encode (database_parts number e))

abbrev first_url : Option String → Option String → Config String
first_url (some url) fallback = loaded url
first_url none (some url) = loaded url
first_url none none =
    failed "DATABASE_URL is required (or set DATABASE_HOST/PORT/USER/PASSWORD/NAME)."

-- resolveDatabaseUrl, of what the configuration has for database.url and for DATABASE_URL.
unfoldable pub resolve_database_url : (configured fallback : Option String) → Config String
resolve_database_url configured fallback = first_url (filled configured) (filled fallback)

-- `split(',')`
abbrev prepend_char : String → List String → List String
prepend_char c [] = c ∷ []
prepend_char c (part ∷ parts) = concat c part ∷ parts

unfoldable pub split_comma : String → List String
split_comma String.[] = "" ∷ []
split_comma (String.◌∷◌ c s) =
    let rest = split_comma s in
    if eqb (code c) 44 then "" ∷ rest else prepend_char (String.◌∷◌ c "") rest

-- `.map((origin) => origin.trim()).filter((origin) => origin.length > 0)`
unfoldable pub filled_origins : List String → List String
filled_origins [] = []
filled_origins (part ∷ parts) =
    let rest = filled_origins parts in if trim part == "" then rest else trim part ∷ rest

-- What enableCors is given; `false` is the same origin only.
pub data CorsOrigin : Type 0 where
  same_origin : CorsOrigin
  origins : List String → CorsOrigin

abbrev default_origin : Bool → CorsOrigin
default_origin true = same_origin
default_origin false = origins ("http://localhost:2002" ∷ "http://127.0.0.1:2002" ∷ [])

abbrev configured_origin : Option String → (production : Bool) → CorsOrigin
configured_origin none production = default_origin production
configured_origin (some configured) production =
    if is_blank configured
    then default_origin production
    else origins (filled_origins (split_comma configured))

-- resolveCorsOrigin, of CORS_ORIGINS and `NODE_ENV === 'production'`.
unfoldable pub resolve_cors_origin : Option String → (production : Bool) → CorsOrigin
unfolding split_comma filled_origins
resolve_cors_origin configured production = configured_origin configured production
