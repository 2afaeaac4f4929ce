-- ===== src/Auth.antt =====
-- apps/server/src/auth: auth.service.ts, jwt-auth.guard.ts and roles.guard.ts. The signing of tokens
-- is a parameter, and so is what NestJS's reflector tells of a route.
pub mod Laws
use Prim.Native.Char.{code}
use docksight.Base.{
  String, Bool, true, false, not, ◌&&◌, ◌||◌, List, [], ◌∷◌, Option, none, some, eqb, ◌==◌,
  if◌then◌else◌,
}
use docksight.Json.{filled}
use docksight.Text.{trim, includes}
use docksight.Http.{unauthorized, forbidden, Response, ok, thrown}
use docksight.Users.{
  UserRole, admin, viewer, UserTable, Passwords, SafeUser, AuthUser, to_auth_user,
  validate_credentials, find_by_id,
}

-- The body of a token, where a field may be missing.
pub record JwtPayload : Type 0 where
  pub sub : Option String
  pub role : Option UserRole

pub record AuthenticatedUser : Type 0 where
  pub id : String
  pub role : UserRole

pub record LoginResult : Type 0 where
  pub access_token : String
  pub user : AuthUser

-- `authorization` is the header, or its first value; `access_token` that of the query, if it is one
-- text.
pub record RequestWithUser : Type 0 where
  pub user : Option AuthenticatedUser
  pub authorization : Option String
  pub url : Option String
  pub access_token : Option String

-- JwtService, with the server's secret and at the present time; `none` is an exception.
pub record JwtService : Type 0 where
  pub sign : JwtPayload → String
  pub verify : String → Option JwtPayload

abbrev pub role_text : UserRole → String
role_text admin = "ADMIN"
role_text viewer = "VIEWER"

abbrev pub role_eq : UserRole → UserRole → Bool
role_eq admin admin = true
role_eq viewer viewer = true
role_eq _ _ = false

-- `required.includes(role)`
abbrev pub role_in : UserRole → List UserRole → Bool
role_in r [] = false
role_in r (q ∷ qs) = role_eq q r || role_in r qs

abbrev joined : List UserRole → String
joined [] = ""
joined (r ∷ []) = role_text r
joined (r ∷ q ∷ qs) =
    docksight.Text.concat (role_text r) (docksight.Text.concat ", " (joined (q ∷ qs)))

module _ (db : UserTable) (pw : Passwords) (jwt : JwtService) where
  abbrev pub login_answer : Option SafeUser → Response LoginResult
  login_answer none = thrown (unauthorized "Invalid email or password")
  login_answer (some u) = ok (record {
    access_token = jwt.sign (record { sub = some u.id; role = some u.role });
    user = to_auth_user u;
  })

  unfoldable pub login : (email password : String) → db.Table → Response LoginResult
  login email password t = login_answer (validate_credentials db pw (some email) (some password) t)

  abbrev profile_answer : Option SafeUser → Response AuthUser
  profile_answer none = thrown (unauthorized "Account no longer exists")
  profile_answer (some u) = ok (to_auth_user u)

  unfoldable pub get_profile : String → db.Table → Response AuthUser
  get_profile user_id t = profile_answer (find_by_id db pw user_id t)

-- `split(' ')`: what stands before the first blank, and what stands after it.
abbrev pub before_space : String → String
before_space String.[] = ""
before_space (String.◌∷◌ c s) =
    let rest = before_space s in if eqb (code c) 32 then "" else String.◌∷◌ c rest

abbrev pub after_space : String → String
after_space String.[] = ""
after_space (String.◌∷◌ c s) = let rest = after_space s in if eqb (code c) 32 then s else rest

abbrev pub on_logs : Option String → Bool
on_logs none = false
on_logs (some url) = includes "/logs" url

abbrev trimmed_token : Option String → Option String
trimmed_token none = none
trimmed_token (some token) = filled (some (trim token))

abbrev first_token : Option String → Option String → Option String
first_token none token = token
first_token (some token) other = some token

unfoldable pub from_event_source_query : RequestWithUser → Option String
from_event_source_query r = if on_logs r.url then trimmed_token r.access_token else none

module _ (pw : Passwords) where
  abbrev bearer : Option String → Option String
  bearer none = none
  bearer (some value) =
      if not (pw.lower (before_space value) == "bearer") || before_space (after_space value) == ""
      then none
      else some (trim (before_space (after_space value)))

  unfoldable pub from_authorization_header : RequestWithUser → Option String
  from_authorization_header r = bearer r.authorization

  unfoldable pub extract_token : RequestWithUser → Option String
  extract_token r = first_token (from_authorization_header r) (from_event_source_query r)

module _ (pw : Passwords) (jwt : JwtService) where
  abbrev with_user : Option String → Option UserRole → RequestWithUser → Response RequestWithUser
  with_user (some id) (some role) r =
      ok (record r { user = some (record { id = id; role = role }) })
  with_user _ _ r = thrown (unauthorized "Malformed token payload")

  abbrev verified : Option JwtPayload → RequestWithUser → Response RequestWithUser
  verified none r = thrown (unauthorized "Invalid or expired token")
  verified (some p) r = with_user (filled p.sub) p.role r

  abbrev checked_token : Option String → RequestWithUser → Response RequestWithUser
  checked_token none r = thrown (unauthorized "Missing authentication token")
  checked_token (some token) r = verified (jwt.verify token) r

  -- canActivate of JwtAuthGuard: the request that goes on, or the exception.
  unfoldable pub authenticate :
      (is_http is_public : Bool) → RequestWithUser → Response RequestWithUser
  authenticate is_http is_public r =
      if not is_http || is_public then ok r else checked_token (filled (extract_token pw r)) r

abbrev allowed : Option AuthenticatedUser → List UserRole → Response Unit
allowed none required = thrown (forbidden "Authentication required")
allowed (some u) required =
    if role_in u.role required
    then ok tt
    else thrown
        (forbidden (docksight.Text.concat "This action requires one of: " (joined required)))

-- canActivate of RolesGuard; a route without `@Roles` has no required role.
unfoldable pub authorize : (is_http : Bool) → List UserRole → RequestWithUser → Response Unit
authorize is_http [] r = ok tt
authorize is_http (q ∷ qs) r = if is_http then allowed r.user (q ∷ qs) else ok tt
