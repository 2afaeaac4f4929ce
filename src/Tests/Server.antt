-- ===== src/Tests/Server.antt =====
-- Requests to the server of the tests.
use docksight.Base.{
  ℕ, String, Bool, true, false, not, ◌≡◌, refl, ◌≢◌, ◌≤◌, ◌⊎◌, [], ◌∷◌, Option, none, some, leb,
  eq_iff, arith, ◌==◌, if◌then◌else◌,
}
use docksight.Text.{trim, trim_start, trim_end, units, concat, is_blank}
use docksight.Json.{Json, bool, str, obj, end, field}
use docksight.Protocol.Container.{restart}
use docksight.Users.{
  UserRole, admin, viewer, create_first_admin, has_any_user, register, normalize_email,
}
use docksight.Auth.{
  JwtPayload, JwtService, RequestWithUser, extract_token, authenticate, authorize,
  from_authorization_header, from_event_source_query,
}
use docksight.Http.{bad_request, unauthorized, forbidden, ok, thrown}
use docksight.Server.{
  Call, action, login, create_admin, token, user, handle, Context, Server, is_public,
  required_roles, serve,
}
use docksight.Server.Dto.{Validators, create_admin_dto}
use docksight.Server.FirstAdmin.{credentials_body, first_admin_can_act}
use docksight.Tests.Session.{signer, signer-verify}
use docksight.Server.Guarded.{
  IsAdminRequest, Harmless, serve-Harmless, serve-unauthorized, serve-forbidden,
}
use docksight.Tests.Samples.{numbers, busy}
use docksight.Tests.Table.{table, rows}
use docksight.Tests.Users.{accounts, passwords, no_accounts, add_account, root_data, root}

abbrev is_text : Option (Json ℕ) → Bool
is_text (some (str s)) = true
is_text _ = false

abbrev is_full : Option (Json ℕ) → Bool
is_full (some (str s)) = not (s == "")
is_full _ = false

abbrev is_flag : Option (Json ℕ) → Bool
is_flag (some (bool b)) = true
is_flag _ = false

abbrev at_most : ℕ → Option (Json ℕ) → Bool
at_most n (some (str s)) = leb (units s) n
at_most n _ = false

abbrev at_least : ℕ → Option (Json ℕ) → Bool
at_least n (some (str s)) = leb n (units s)
at_least n _ = false

pub is_full-text : (s : String) → s ≢ "" → is_full (some (str s)) ≡ true
is_full-text s ne = ground (arith, eq_iff s "", ne)

pub at_most-text : (n : ℕ) (s : String) → units s ≤ n → at_most n (some (str s)) ≡ true
at_most-text n s h = ground (arith, h)

abbrev pub validators : Validators ℕ
validators = record {
  is_string = is_text;
  is_not_empty = is_full;
  is_boolean = is_flag;
  is_email = is_text;
  min_length = at_least;
  max_length = at_most;
  refusal = bad_request "Bad Request";
  is_string_text = λ s. refl;
  is_not_empty_text = is_full-text;
  max_length_text = at_most-text;
  is_boolean_bool = λ b. refl;
}

-- One token is an administrator's, another a viewer's.
abbrev pub two_tokens : JwtService
two_tokens = record {
  sign = λ p. "t1";
  verify = λ token.
      if token == "t1"
      then some (record { sub = some "a1"; role = some admin })
      else if token == "t2"
      then some (record { sub = some "a2"; role = some viewer })
      else none;
}

abbrev pub request_with : Option String → RequestWithUser
request_with header = record {
  user = none;
  authorization = header;
  url = some "/api/containers/c1/restart";
  access_token = none;
}

abbrev pub context : Context ℕ
context = record {
  now = 5000;
  request_id = "r9";
  salt = "salt";
  database_up = true;
  parse_int = λ s. 100;
  is_positive = λ n. true;
  on_chunk = 0;
}

abbrev pub server : Server table accounts ℕ
server = record { agents = rows; users = no_accounts; gateway = busy }

abbrev restart_call : Call ℕ
restart_call = action restart "c1" (obj (field "hostId" (str "h1") end))

abbrev pub week_before : ℕ → ℕ
week_before now = now

serve-Harmless_example :
    IsAdminRequest table accounts passwords two_tokens numbers validators week_before
      (request_with (some "bearer t2"))
    ⊎ Harmless table accounts passwords two_tokens numbers validators week_before server
        (serve table accounts passwords two_tokens numbers validators week_before restart_call
          context
          (request_with (some "bearer t2"))
          server).0
serve-Harmless_example =
    serve-Harmless table accounts passwords two_tokens numbers validators week_before restart_call
      context (request_with (some "bearer t2")) server

restart_is_private : is_public restart_call ≡ false
unfolding is_public
restart_is_private = refl

restart_needs_admin : required_roles restart_call ≡ admin ∷ []
unfolding required_roles
restart_needs_admin = refl

no_token : extract_token passwords (request_with none) ≡ none
unfolding extract_token from_authorization_header from_event_source_query docksight.Text.includes
no_token = refl

no_good_token :
    (token : String)
    → extract_token passwords (request_with none) ≡ some token
    → two_tokens.verify token ≡ none
no_good_token t e = absurd (ground (arith, e, no_token))

serve-unauthorized_example :
    (m : String) × (serve table accounts passwords two_tokens numbers validators week_before
        restart_call context
        (request_with none)
        server
      ≡ (server, thrown (unauthorized m)))
serve-unauthorized_example =
    serve-unauthorized table accounts passwords two_tokens numbers validators week_before
      restart_call context (request_with none) server restart_is_private no_good_token

viewer_token : extract_token passwords (request_with (some "bearer t2")) ≡ some "t2"
unfolding extract_token from_authorization_header trim trim_start trim_end
viewer_token = refl

t2_is_full : ◌≢◌ {A = String} "t2" ""
t2_is_full e = cc e

a2_is_full : ◌≢◌ {A = String} "a2" ""
a2_is_full e = cc e

serve-forbidden_example :
    serve table accounts passwords two_tokens numbers validators week_before restart_call context
      (request_with (some "bearer t2"))
      server
    ≡ (server, thrown (forbidden "This action requires one of: ADMIN"))
serve-forbidden_example =
    serve-forbidden table accounts passwords two_tokens numbers validators week_before restart_call
      context (request_with (some "bearer t2")) server "t2" "a2" restart_needs_admin viewer_token
      t2_is_full refl a2_is_full

-- A new instance.
a1_is_full : ◌≢◌ {A = String} "a1" ""
a1_is_full e = cc e

signer_is_full : (p : JwtPayload) → signer.sign p ≢ ""
signer_is_full p = go p.role refl
  where
    go : (role : Option UserRole) → p.role ≡ role → signer.sign p ≢ ""
    go none e f = cc (e, f)
    go (some admin) e f = cc (e, f)
    go (some viewer) e f = cc (e, f)

abbrev set_up : Server table accounts ℕ
set_up = record server { users = add_account root_data no_accounts }

new_instance-create_admin :
    serve table accounts passwords signer numbers validators week_before
      (create_admin (credentials_body "ada@x.io" "12345678"))
      context
      (request_with none)
      server
    ≡ (set_up, ok (user root))
unfolding serve handle is_public required_roles authenticate authorize create_admin_dto
    create_first_admin has_any_user register normalize_email trim trim_start trim_end units
new_instance-create_admin = refl

first_admin_can_act_example :
    (t : String) × ((serve table accounts passwords signer numbers validators week_before
          (login (credentials_body "ada@x.io" "12345678"))
          context
          (request_with none)
          set_up
        ≡ (set_up, ok (token (record { access_token = t; user = root }))))
      × ((call : Call ℕ) (d : Context ℕ) (w : RequestWithUser) (x : Server table accounts ℕ)
          → is_public call ≡ false
          → extract_token passwords w ≡ some t
          → serve table accounts passwords signer numbers validators week_before call d w x
            ≡ handle table accounts passwords signer numbers validators week_before call d
                (record w { user = some (record { id = "a1"; role = admin }) })
                x))
first_admin_can_act_example =
    first_admin_can_act table accounts passwords signer numbers validators week_before "ada@x.io"
      "12345678" context context (request_with none) (request_with none) server set_up root
      new_instance-create_admin (λ p. signer-verify p.sub p.role) signer_is_full a1_is_full
