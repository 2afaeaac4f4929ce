-- ===== src/Server/FirstAdmin.antt =====
-- A new instance over HTTP: the setup, the login, and what the token of the login can do.
use docksight.Base.{
  ℕ, String, true, false, ◌≡◌, refl, ◌≢◌, ◌≤◌, Option, none, some, arith, eq_iff, ◌==◌, inl, inr,
  subst, sym, ap,
}
use docksight.Json.{Numbers, Json, str, obj, end, field}
use docksight.Text.{units}
use docksight.Agents.{AgentTable}
use docksight.Users.{admin, UserTable, Passwords, AuthUser, create_first_admin}
use docksight.Users.Laws.{create_first_admin_once, login_after_create_first_admin}
use docksight.Auth
use docksight.Auth.{JwtPayload, JwtService, RequestWithUser, extract_token, authenticate, authorize}
use docksight.Http.{Response, ok, thrown}
use docksight.Server.{
  Call, login, create_admin, token, user, Context, Server, replied, is_public, required_roles,
  handle, on_create_admin, serve,
}
use docksight.Server.Guarded.{roles-cases}
use docksight.Server.Dto.{Validators, Credentials, login_dto, create_admin_dto}

-- The body of both routes.
abbrev pub credentials_body : {Num : Type 0} → String → String → Json Num
credentials_body email password =
    obj (field "email" (str email) (field "password" (str password) end))

-- A body that the setup accepts has the email and the password that it says.
create_admin_dto-body :
    {Num : Type 0}
    → (v : Validators Num) (email password : String) (c : Credentials)
    → create_admin_dto v (credentials_body email password) ≡ some c
    → (c ≡ record { email = email; password = password }) × (v.is_email (some (str email)) ≡ true)
unfolding create_admin_dto
create_admin_dto-body v email password c e = (ground (arith, e), ground (arith, e))

login_dto-body :
    {Num : Type 0}
    → (v : Validators Num) (email password : String) → v.is_email (some (str email)) ≡ true
    → password ≢ ""
    → login_dto v (credentials_body email password)
      ≡ some (record { email = email; password = password })
unfolding login_dto
login_dto-body v email password mail full =
    rw (mail, v.is_string_text password, v.is_not_empty_text password full) refl

long_full : (password : String) → 8 ≤ units password → password ≢ ""
unfolding units
long_full password long e = absurd (omega (arith, subst (λ p. 8 ≤ units p) e long))

module _ (adb : AgentTable) (udb : UserTable) (pw : Passwords) (jwt : JwtService) (n : Numbers)
    (v : Validators n.Num) (week_before : ℕ → ℕ) where
  open n use {Num}

  replied-ok :
      (x : Response AuthUser) (a : AuthUser) → replied {Num = Num} user x ≡ ok (user a) → x ≡ ok a
  replied-ok (ok b) a e = ap ok (cc e)
  replied-ok (thrown m) a e = absurd (ground (arith, e))

  -- What a setup that answers with a user has done.
  on_create_admin-ok :
      (o : Option Credentials) (salt : String) (s s' : Server adb udb Num) (a : AuthUser)
      → on_create_admin adb udb pw jwt n v week_before o salt s ≡ (s', ok (user a))
      → (c : Credentials) × ((o ≡ some c)
          × (create_first_admin udb pw c.email c.password salt s.users s.users s.users
              ≡ (s'.users, ok a)))
  on_create_admin-ok none salt s s' a e = absurd (ground (arith, e))
  on_create_admin-ok (some c) salt s s' a e =
      let made = create_first_admin udb pw c.email c.password salt s.users s.users s.users in
      let users : made.0 ≡ s'.users = ap (λ r. r.0.users) e in
      let answer : made.1 ≡ ok a = replied-ok made.1 a (ap (λ r. r.1) e) in
      (c, (refl, cc (users, answer)))

  administrator_allowed :
      (call : Call Num) (w : RequestWithUser) (id : String)
      → authorize true
          (required_roles call)
          (record w { user = some (record { id = id; role = admin }) })
        ≡ ok tt
  unfolding authorize
  administrator_allowed call w id = elim (roles-cases adb udb pw jwt n v week_before call) [
    | inl free ↦ rw free refl
    | inr (roles, _) ↦ rw roles refl
  ]

  -- On a new instance, the email and the password that the setup accepted are accepted by the login; and
  -- with the token that the login gives, every route that is not public lets the request through to its
  -- handler, as one of the administrator, also a route that asks for ADMIN: where a signed token is not
  -- empty and verifies to what was signed, and the administrator has an id.
  pub first_admin_can_act :
      (email password : String) (c later : Context Num) (r q : RequestWithUser)
      (s s' : Server adb udb Num) (a : AuthUser)
      → serve adb udb pw jwt n v week_before (create_admin (credentials_body email password)) c r s
        ≡ (s', ok (user a))
      → ((p : JwtPayload) → jwt.verify (jwt.sign p) ≡ some p)
      → ((p : JwtPayload) → jwt.sign p ≢ "")
      → a.id ≢ ""
      → (t : String) × ((serve adb udb pw jwt n v week_before
              (login (credentials_body email password))
              later
              q
              s'
            ≡ (s', ok (token (record { access_token = t; user = a }))))
          × ((call : Call Num) (d : Context Num) (w : RequestWithUser) (x : Server adb udb Num)
              → is_public call ≡ false
              → extract_token pw w ≡ some t
              → serve adb udb pw jwt n v week_before call d w x
                ≡ handle adb udb pw jwt n v week_before call d
                    (record w { user = some (record { id = a.id; role = admin }) })
                    x))
  unfolding serve handle is_public required_roles authenticate authorize Auth.login
  first_admin_can_act email password c later r q s s' a e verify signs has_id =
      let body = credentials_body email password in
      let (given, (dto, made)) = on_create_admin-ok (create_admin_dto v body) c.salt s s' a e in
      let (same, mail) = create_admin_dto-body v email password given dto in
      let created : create_first_admin udb pw email password c.salt s.users s.users s.users
          ≡ (s'.users, ok a) =
        subst
          (λ g.
            create_first_admin udb pw g.email g.password c.salt s.users s.users s.users
            ≡ (s'.users, ok a))
          same made in
      let (u, (valid, shown, long)) =
        login_after_create_first_admin udb pw email password c.salt s.users s.users s.users s'.users
          a created in
      let (_, is_admin, _, _, _) =
        create_first_admin_once udb pw email password c.salt s.users s.users s.users s'.users a
          created in
      let p : JwtPayload = record { sub = some a.id; role = some admin } in
      let same_p : record { sub = some u.id; role = some u.role } ≡ p =
        ground (arith, shown, is_admin) in
      let t_full : (jwt.sign p == "") ≡ false = ground (arith, eq_iff (jwt.sign p) "", signs p) in
      let id_full : (a.id == "") ≡ false = ground (arith, eq_iff a.id "", has_id) in
      (
        jwt.sign p,
        (
          rw (login_dto-body v email password mail (long_full password long), valid)
              (rw same_p (
                ap (λ b. (s', ok (token (record { access_token = jwt.sign p; user = b }))))
                  (sym shown))),
          λ call d w x private there.
              rw (private, there, t_full, verify p, id_full)
                (rw (administrator_allowed call w a.id) refl),
        ),
      )
