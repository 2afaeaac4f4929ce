-- ===== src/Tests/Session.antt =====
-- A session of the web client, with the server of the tests.
use docksight.Base.{
  ℕ, ◌≡◌, refl, String, true, false, Option, none, some, is_some, List, [], ◌∷◌, eqb, not, ◌&&◌,
  ◌==◌, if◌then◌else◌,
}
use docksight.Text.{code, concat, trim, trim_start, trim_end, units}
use docksight.Json.{null}
use docksight.Http.{ok}
use docksight.Users.{
  admin, viewer, UserRole, Passwords, validate_credentials, find_by_email_with_secret,
  normalize_email, verify_password,
}
use docksight.Auth.{JwtPayload, JwtService, LoginResult, login, authenticate}
use docksight.Web.Tokens.{Tokens, get_token}
use docksight.Web.Api.{Texts, refused, accepted}
use docksight.Web.Session.{
  Session, Event, setup_answered, sign_in_answered, other_answered, new_session, unauthenticated,
  authenticated, use_is_admin, apply, run,
}
use docksight.Web.Session.Laws.{is_authenticated, run_agrees}
use docksight.Web.Session.Access.{other_answered-401}
use docksight.Web.Session.Server.{next_call, IsTokenText, sign_in-authenticates}
use docksight.Tests.Users.{add_account, accounts, passwords, root_data, no_accounts, root}

abbrev texts : Texts ℕ
texts = record { of_number = λ n. "n"; of_value = λ v. "v" }

abbrev fresh_tokens : Tokens
fresh_tokens = record { cached = none; stored = none; usable = true }

-- A token with the role and the id in it.
abbrev pub sign_id : Option String → String
sign_id none = "n"
sign_id (some id) = concat "s" id

abbrev pub sign_role : Option UserRole → String → String
sign_role none text = concat "N" text
sign_role (some admin) text = concat "A" text
sign_role (some viewer) text = concat "V" text

abbrev pub read_id : String → Option String
read_id String.[] = none
read_id (String.◌∷◌ c id) = if eqb (code c) 115 then some id else none

abbrev pub read_role : ℕ → Option UserRole
read_role c = if eqb c 65 then some admin else if eqb c 86 then some viewer else none

abbrev pub read_payload : String → Option JwtPayload
read_payload String.[] = none
read_payload (String.◌∷◌ c text) = some (record { sub = read_id text; role = read_role (code c) })

abbrev pub signer : JwtService
signer = record { sign = λ p. sign_role p.role (sign_id p.sub); verify = read_payload }

pub signer-verify :
    (sub : Option String) (role : Option UserRole)
    → signer.verify (signer.sign (record { sub = sub; role = role }))
      ≡ some (record { sub = sub; role = role })
signer-verify none none = refl
signer-verify none (some admin) = refl
signer-verify none (some viewer) = refl
signer-verify (some id) none = refl
signer-verify (some id) (some admin) = refl
signer-verify (some id) (some viewer) = refl

abbrev lowering : Passwords
lowering = record passwords { lower = λ s. if s == "Bearer" then "bearer" else s }

abbrev root_login : LoginResult
root_login = record { access_token = "Asa1"; user = root }

root-login :
    login accounts lowering signer "ada@x.io" "12345678" (add_account root_data no_accounts)
    ≡ ok root_login
unfolding login validate_credentials find_by_email_with_secret normalize_email verify_password trim
    trim_start trim_end units
root-login = refl

root_login-IsTokenText : IsTokenText "Asa1"
unfolding trim trim_start trim_end
root_login-IsTokenText = record { one_word = refl; trimmed = refl; not_empty = refl }

abbrev new_tokens : Tokens
new_tokens = record { cached = some (some "new"); stored = some "new"; usable = true }

abbrev signed_in : Session
signed_in = record { tokens = new_tokens; status = authenticated; user = some root }

abbrev no_session : Session
no_session = record { tokens = fresh_tokens; status = unauthenticated; user = none }

sign_in-authenticates_example :
    authenticate lowering signer true false
      (next_call (some "/hosts") (apply texts (sign_in_answered (accepted root_login)) no_session))
    ≡ ok
        (record (next_call
          (some "/hosts")
          (apply texts (sign_in_answered (accepted root_login)) no_session)) {
            user = some (record { id = "a1"; role = admin });
          })
sign_in-authenticates_example =
    sign_in-authenticates accounts lowering signer texts "ada@x.io" "12345678"
      (add_account root_data no_accounts) root_login no_session (some "/hosts") root-login
      root_login-IsTokenText refl (λ p. signer-verify p.sub p.role) refl

other_answered-401_example :
    (is_authenticated
        (apply texts (other_answered (some "old") (refused 401 null)) signed_in).status
      ≡ false)
    × (get_token (apply texts (other_answered (some "old") (refused 401 null)) signed_in).tokens
        ≡ none)
other_answered-401_example = other_answered-401 texts "old" null signed_in refl

abbrev session_events : List (Event ℕ)
session_events =
    setup_answered (accepted false)
    ∷ sign_in_answered (accepted root_login)
    ∷ other_answered (some "Asa1") (refused 401 null)
    ∷ []

run_agrees_example :
    (is_authenticated (run texts session_events (new_session fresh_tokens)).status
      ≡ is_some (run texts session_events (new_session fresh_tokens)).user)
    × ((use_is_admin (run texts session_events (new_session fresh_tokens))
          && not (is_authenticated (run texts session_events (new_session fresh_tokens)).status))
        ≡ false)
run_agrees_example = run_agrees texts session_events fresh_tokens
