-- ===== src/Web/Session/Server.antt =====
-- The token that the web client keeps: over a reload of the page, and in the calls that the server
-- authenticates.
use docksight.Base.{String, ◌≡◌, refl, ap, ◌∙◌, true, false, Option, none, some, ◌==◌, arith}
use docksight.Text.{concat, trim}
use docksight.Http.{ok}
use docksight.Users.{UserTable, Passwords, SafeUser, validate_credentials}
use docksight.Auth.{
  LoginResult, JwtPayload, JwtService, RequestWithUser, before_space, login_answer, login,
  extract_token, from_authorization_header, authenticate,
}
use docksight.Web.Tokens.{get_token, set_token, clear_token, reload}
use docksight.Web.Api.{accepted, authorization_header, Texts}
use docksight.Web.Session.{
  Session, sign_in_answered, signed_out_by_user, AuthStatus, loading, unauthenticated,
  authenticated, setup_required, store_token, drop_token, finish_request, apply,
}

drop_token-tokens : (s : Session) → (drop_token s).tokens ≡ clear_token s.tokens
unfolding drop_token
drop_token-tokens s = go s.status refl
  where
    go : (st : AuthStatus) → s.status ≡ st → (drop_token s).tokens ≡ clear_token s.tokens
    go authenticated e = ground arith
    go loading e = ground arith
    go unauthenticated e = ground arith
    go setup_required e = ground arith

module _ {Num : Type 0} (texts : Texts Num) where
  -- Where localStorage works, the token of a login is still there when the page is loaded anew, and after
  -- the user has signed out none is.
  pub sign_in-reload :
      (r : LoginResult) (s : Session)
      → s.tokens.usable ≡ true
      → (get_token (reload (apply texts (sign_in_answered (accepted r)) s).tokens)
          ≡ some r.access_token)
        × (get_token (reload (apply texts signed_out_by_user s).tokens) ≡ none)
  unfolding apply finish_request store_token drop_token set_token clear_token get_token
  sign_in-reload r s h =
      (rw h refl, ap (λ t. get_token (reload t)) (drop_token-tokens s) ∙ rw h refl)

-- The call that the client sends next to this url.
abbrev pub next_call : Option String → Session → RequestWithUser
next_call url s = record {
  user = none;
  authorization = authorization_header (get_token s.tokens);
  url = url;
  access_token = none;
}

-- What a signed token looks like: it has no blank, no space around it, and is not empty.
pub record IsTokenText (token : String) : Type 0 where
  pub one_word : before_space token ≡ token
  pub trimmed : trim token ≡ token
  pub not_empty : (token == "") ≡ false

header-token :
    (token : String)
    → (token == "") ≡ false
    → authorization_header (some token) ≡ some (concat "Bearer " token)
unfolding authorization_header
header-token token h = rw h refl

header-word :
    (pw : Passwords) (token : String) (r : RequestWithUser)
    → IsTokenText token
    → pw.lower "Bearer" ≡ "bearer"
    → r.authorization ≡ some (concat "Bearer " token)
    → from_authorization_header pw r ≡ some token
unfolding from_authorization_header
header-word pw token r i l e = rw (e, l) (rw (i.one_word, i.not_empty, i.trimmed) refl)

-- The header of a call with this token has it for the server.
bearer-token :
    (pw : Passwords) (token : String) (url : Option String)
    → IsTokenText token
    → pw.lower "Bearer" ≡ "bearer"
    → extract_token pw (record {
      user = none;
      authorization = authorization_header (some token);
      url = url;
      access_token = none;
    })
      ≡ some token
unfolding extract_token
bearer-token pw token url i l =
    let r : RequestWithUser = record {
      user = none;
      authorization = authorization_header (some token);
      url = url;
      access_token = none;
    } in
    rw (header-word pw token r i l (header-token token i.not_empty)) refl

module _ (db : UserTable) (pw : Passwords) (jwt : JwtService) where
  login-user :
      (o : Option SafeUser) (r : LoginResult)
      → login_answer db pw jwt o ≡ ok r
      → r.access_token ≡ jwt.sign (record { sub = some r.user.id; role = some r.user.role })
  login-user none r e = ground arith
  login-user (some u) r e = ground arith

  -- After the client has signed in with the server's answer to a login, the next call that it sends carries
  -- a token by which the server authenticates the user who has logged in, with the role that the login
  -- told the client: where a signed token is one word, verifies to what was signed, and the user has an id.
  pub sign_in-authenticates :
      {Num : Type 0}
      → (texts : Texts Num) (email password : String) (t : db.Table) (r : LoginResult) (s : Session)
        (url : Option String)
      → login db pw jwt email password t ≡ ok r
      → IsTokenText r.access_token
      → pw.lower "Bearer" ≡ "bearer"
      → ((p : JwtPayload) → jwt.verify (jwt.sign p) ≡ some p)
      → (r.user.id == "") ≡ false
      → authenticate pw jwt true false
          (next_call url (apply texts (sign_in_answered (accepted r)) s))
        ≡ ok (record (next_call url (apply texts (sign_in_answered (accepted r)) s)) {
          user = some (record { id = r.user.id; role = r.user.role });
        })
  unfolding authenticate apply finish_request store_token set_token get_token login
  sign_in-authenticates texts email password t r s url e i l v h =
      let w =
        ap jwt.verify (login-user (validate_credentials db pw (some email) (some password) t) r e)
        ∙ v _ in
      rw (bearer-token pw r.access_token url i l, i.not_empty, w, h) refl
