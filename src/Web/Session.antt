-- ===== src/Web/Session.antt =====
-- apps/web/src/stores/auth.ts and services/auth.service.ts: the session that the web client shows. A
-- function that awaits the server is a step for each answer, and other steps may come between.
pub mod Laws
pub mod Access
pub mod Server
use docksight.Base.{String, ℕ, Bool, true, false, Option, none, some, List, [], ◌∷◌, if◌then◌else◌}
use docksight.Users.{UserRole, admin, viewer, AuthUser}
use docksight.Auth.{LoginResult}
use docksight.Web.Tokens.{Tokens, get_token, cache_token, set_token, clear_token, has_token}
use docksight.Web.Api.{Reply, Answer, returned, raised, answer, drops_token, Texts}

pub data AuthStatus : Type 0 where
  loading unauthenticated authenticated setup_required : AuthStatus

pub record Session : Type 0 where
  pub tokens : Tokens
  pub status : AuthStatus
  pub user : Option AuthUser

abbrev pub new_session : Tokens → Session
new_session t = record { tokens = t; status = loading; user = none }

abbrev signed_out : Session → Session
signed_out s = record s { status = unauthenticated; user = none }

-- The listener of the store, which the token storage notifies.
abbrev pub token_changed : Option String → Session → Session
token_changed (some token) s = s
token_changed none s = elim s.status [
  | authenticated ↦ signed_out s
  | loading ↦ s
  | unauthenticated ↦ s
  | setup_required ↦ s
]

unfoldable pub drop_token : Session → Session
unfolding clear_token
drop_token s = token_changed none (record s { tokens = clear_token s.tokens })

unfoldable pub store_token : String → Session → Session
unfolding set_token
store_token token s = token_changed (some token) (record s { tokens = set_token token s.tokens })

-- useIsAdmin
abbrev pub is_admin_user : Option AuthUser → Bool
is_admin_user none = false
is_admin_user (some u) = elim u.role [ admin ↦ true | viewer ↦ false ]

unfoldable pub use_is_admin : Session → Bool
use_is_admin s = is_admin_user s.user

-- What happens to the session. `token` is what the call read from the storage when it was sent; an
-- anonymous call has none.
pub data Event (Num : Type 0) : Type 0 where
  setup_answered : Reply Num Bool → Event Num
  profile_answered : (token : Option String) → Reply Num AuthUser → Event Num
  sign_in_answered : Reply Num LoginResult → Event Num
  first_admin_answered : Reply Num AuthUser → Event Num
  other_answered : (token : Option String) → Reply Num Unit → Event Num
  token_read signed_out_by_user : Event Num

module _ {Num A : Type 0} (texts : Texts Num) where
  -- `request`, from the answer on: it may drop the token, and then notifies.
  unfoldable pub finish_request : Option String → Reply Num A → Session → Session × Answer Num A
  unfolding answer drops_token drop_token
  finish_request token reply s =
      (if drops_token token reply then drop_token s else s, answer texts reply)

module _ {Num : Type 0} where
  -- bootstrap, after it knows of the setup; fetchCurrentUser sends its call where there is a token.
  abbrev pub with_setup : Answer Num Bool → Session → Session
  with_setup (returned true) s = record s { status = setup_required; user = none }
  with_setup (returned false) s = if has_token s.tokens then s else signed_out s
  with_setup (raised e) s = signed_out s

  -- The end of bootstrap.
  abbrev pub with_profile : Answer Num AuthUser → Session → Session
  with_profile (returned u) s = record s { status = authenticated; user = some u }
  with_profile (raised e) s = signed_out s

  -- login, and what signIn and completeSetup do after it.
  abbrev pub with_login : Answer Num LoginResult → Session → Session
  with_login (returned r) s = record (store_token r.access_token s) {
    status = authenticated;
    user = some r.user;
  }
  with_login (raised e) s = s

module _ {Num : Type 0} (texts : Texts Num) where
  unfoldable pub apply : Event Num → Session → Session
  unfolding finish_request drop_token store_token has_token cache_token
  apply (setup_answered reply) s =
      let done = finish_request texts none reply s in with_setup done.1 done.0
  apply (profile_answered token reply) s =
      let done = finish_request texts token reply s in with_profile done.1 done.0
  apply (sign_in_answered reply) s =
      let done = finish_request texts none reply s in with_login done.1 done.0
  apply (first_admin_answered reply) s = (finish_request texts none reply s).0
  apply (other_answered token reply) s = (finish_request texts token reply s).0
  apply token_read s = record s { tokens = cache_token s.tokens }
  apply signed_out_by_user s = signed_out (drop_token s)

  unfoldable pub run : List (Event Num) → Session → Session
  unfolding apply
  run [] s = s
  run (e ∷ es) s = run es (apply e s)
