-- ===== src/Web/Tokens.antt =====
-- apps/web/src/services/tokenStorage.ts: the access token, its mirror in memory and localStorage.
use docksight.Base.{String, Bool, Option, none, some, is_some, if◌then◌else◌}
use docksight.Json.{filled}

-- `cached` is `none` where `cachedToken` is undefined; `stored` is the item of localStorage, and
-- `usable` says whether localStorage works or throws.
pub record Tokens : Type 0 where
  pub cached : Option (Option String)
  pub stored : Option String
  pub usable : Bool

abbrev pub read_token : Option (Option String) → Tokens → Option String
read_token (some token) t = token
read_token none t = if t.usable then t.stored else none

-- getToken: the token, and the mirror that it may fill.
unfoldable pub get_token : Tokens → Option String
get_token t = read_token t.cached t

unfoldable pub cache_token : Tokens → Tokens
unfolding get_token
cache_token t = record t { cached = some (get_token t) }

-- setToken and clearToken, before they notify.
unfoldable pub set_token : String → Tokens → Tokens
set_token token t = record t {
  cached = some (some token);
  stored = if t.usable then some token else t.stored;
}

unfoldable pub clear_token : Tokens → Tokens
clear_token t = record t { cached = some none; stored = if t.usable then none else t.stored }

-- hasToken
unfoldable pub has_token : Tokens → Bool
unfolding get_token
has_token t = is_some (filled (get_token t))

-- The page is loaded anew: the module's variable is undefined again.
abbrev pub reload : Tokens → Tokens
reload t = record t { cached = none }
