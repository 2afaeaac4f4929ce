-- ===== src/Server/Guarded.antt =====
-- What a request must carry for the server to do something for it.
use docksight.Base.{
  ℕ, String, true, false, ◌≡◌, refl, ◌≢◌, ◌⊎◌, [], ◌∷◌, Option, none, some, Option-cases,
  Bool-cases, inl, inr, arith, eq_iff, subst, ◌==◌,
}
use docksight.Json.{Numbers}
use docksight.Text.{is_blank}
use docksight.Agents.{AgentTable, find_by_id}
use docksight.Users.{admin, viewer, UserTable, Passwords, has_any_user, create_first_admin}
use docksight.Auth.{JwtService, RequestWithUser, extract_token, authenticate, authorize}
use docksight.Auth.Laws.{authenticate_admin}
use docksight.Http.{unauthorized, forbidden, Response, ok, thrown}
use docksight.Server.{
  Call, login, create_admin, me, setup_status, health, list_hosts, update_display_name, get_metrics,
  list_containers, delete_host, inspect, action, stream_logs, Reply, Context, Server, is_public,
  required_roles, handle, permitted, admitted, serve,
}
use docksight.Server.Dto.{Validators, Credentials}
use docksight.Server.Keeps.{
  NoCommand, inspect-NoCommand, stream_logs-NoCommand, list_hosts-agents, get_metrics-agents,
  list_containers-agents,
}

module _ (adb : AgentTable) (udb : UserTable) (pw : Passwords) (jwt : JwtService) (n : Numbers)
    (v : Validators n.Num) (week_before : ℕ → ℕ) where
  open n use {Num}

  abbrev S : Type 0
  S = Server adb udb Num

  -- The request carries a token that the server's secret verifies, for a user with the role ADMIN.
  abbrev pub IsAdminRequest : RequestWithUser → Type 0
  IsAdminRequest r =
      (token : String) × ((id : String) × ((extract_token pw r ≡ some token)
          × ((jwt.verify token ≡ some (record { sub = some id; role = some admin })) × (id ≢ ""))))

  -- The agents are the same, no command is sent or waits, and where there is a user, the users are
  -- the same.
  abbrev pub Harmless : S → S → Type 0
  Harmless s t =
      (t.agents ≡ s.agents)
      × NoCommand s.gateway t.gateway
      × (has_any_user udb pw s.users ≡ true → t.users ≡ s.users)

  Harmless-refl : (s : S) → Harmless s s
  Harmless-refl s = (refl, (refl, refl), λ h. refl)

  create_first_admin-closed :
      (email password salt : String) (t : udb.Table)
      → has_any_user udb pw t ≡ true
      → (create_first_admin udb pw email password salt t t t).0 ≡ t
  unfolding create_first_admin
  create_first_admin-closed email password salt t e = rw e refl

  on_create_admin-Harmless :
      (c : Option Credentials) (salt : String) (s : S)
      → Harmless s (docksight.Server.on_create_admin adb udb pw jwt n v week_before c salt s).0
  on_create_admin-Harmless none salt s = Harmless-refl s
  on_create_admin-Harmless (some c) salt s =
      (refl, (refl, refl), create_first_admin-closed c.email c.password salt s.users)

  on_login-Harmless :
      (c : Option Credentials) (s : S)
      → Harmless s (docksight.Server.on_login adb udb pw jwt n v week_before c s).0
  on_login-Harmless none s = Harmless-refl s
  on_login-Harmless (some c) s = Harmless-refl s

  on_inspect-Harmless :
      (id host_id q : String) (s : S)
      → Harmless s (docksight.Server.on_inspect adb udb pw jwt n v week_before id host_id q s).0
  on_inspect-Harmless id host_id q s = elim (Bool-cases (is_blank host_id)) [
    | inl e ↦ rw e (Harmless-refl s)
    | inr e ↦ rw e (
      refl,
      inspect-NoCommand (find_by_id adb host_id s.agents) host_id id q s.gateway,
      λ h. refl,
    )
  ]

  -- The handler of a route that asks for no role.
  handle-Harmless :
      (call : Call Num) (c : Context Num) (r : RequestWithUser) (s : S)
      → required_roles call ≡ []
      → Harmless s (handle adb udb pw jwt n v week_before call c r s).0
  unfolding handle required_roles
  handle-Harmless (login body) c r s e = on_login-Harmless _ s
  handle-Harmless (create_admin body) c r s e = on_create_admin-Harmless _ c.salt s
  handle-Harmless me c r s e = Harmless-refl s
  handle-Harmless setup_status c r s e = Harmless-refl s
  handle-Harmless health c r s e = Harmless-refl s
  handle-Harmless list_hosts c r s e = (list_hosts-agents adb _, (refl, refl), λ h. refl)
  handle-Harmless (update_display_name id body) c r s e = cc
  handle-Harmless (get_metrics id) c r s e = (get_metrics-agents adb id _, (refl, refl), λ h. refl)
  handle-Harmless (list_containers id) c r s e =
      (list_containers-agents adb id _, (refl, refl), λ h. refl)
  handle-Harmless (delete_host id) c r s e = cc
  handle-Harmless (inspect id host_id) c r s e = on_inspect-Harmless id host_id c.request_id s
  handle-Harmless (action a id body) c r s e = cc
  handle-Harmless (stream_logs id host_id tail follow) c r s e = (
    refl,
    stream_logs-NoCommand n (find_by_id adb host_id s.agents) host_id id _ _ follow c.on_chunk
        c.request_id s.gateway,
    λ h. refl,
  )

  -- A route asks for ADMIN and a token, or for no role.
  pub roles-cases :
      (call : Call Num)
      → (required_roles call ≡ []) ⊎ ((required_roles call ≡ admin ∷ []) × (is_public call ≡ false))
  unfolding required_roles is_public
  roles-cases (update_display_name id body) = inr (refl, refl)
  roles-cases (delete_host id) = inr (refl, refl)
  roles-cases (action a id body) = inr (refl, refl)
  roles-cases (login body) = inl refl
  roles-cases (create_admin body) = inl refl
  roles-cases me = inl refl
  roles-cases setup_status = inl refl
  roles-cases health = inl refl
  roles-cases list_hosts = inl refl
  roles-cases (get_metrics id) = inl refl
  roles-cases (list_containers id) = inl refl
  roles-cases (inspect id host_id) = inl refl
  roles-cases (stream_logs id host_id tail follow) = inl refl

  admitted-Harmless :
      (x : Response RequestWithUser) (call : Call Num) (c : Context Num) (s : S)
      → required_roles call ≡ []
      → Harmless s (admitted adb udb pw jwt n v week_before x call c s).0
  unfolding authorize
  admitted-Harmless (thrown e) call c s free = Harmless-refl s
  admitted-Harmless (ok r) call c s free = rw free (handle-Harmless call c r s free)

  permitted-cases :
      (x : Response Unit) (call : Call Num) (c : Context Num) (r : RequestWithUser) (s : S)
      → (x ≡ ok tt) ⊎ ((permitted adb udb pw jwt n v week_before x call c r s).0 ≡ s)
  permitted-cases (ok u) call c r s = inl refl
  permitted-cases (thrown e) call c r s = inr refl

  admitted-cases :
      (x : Response RequestWithUser) (call : Call Num) (c : Context Num) (s : S)
      → ((r : RequestWithUser) × ((x ≡ ok r) × (authorize true (required_roles call) r ≡ ok tt)))
        ⊎ ((admitted adb udb pw jwt n v week_before x call c s).0 ≡ s)
  admitted-cases (thrown e) call c s = inr refl
  admitted-cases (ok r) call c s =
      elim (permitted-cases (authorize true (required_roles call) r) call c r s) [
        | inl e ↦ inl (r, (refl, e))
        | inr e ↦ inr e
      ]

  Harmless-same : (s t : S) → t ≡ s → Harmless s t
  Harmless-same s t e = (cc e, (cc e, cc e), λ h. cc e)

  -- Whatever the route, the body and the state: unless the request carries a token of an
  -- administrator, it changes no row of the agents, no further command goes to an agent or waits, and
  -- once there is a user no user is made.
  pub serve-Harmless :
      (call : Call Num) (c : Context Num) (r : RequestWithUser) (s : S)
      → IsAdminRequest r ⊎ Harmless s (serve adb udb pw jwt n v week_before call c r s).0
  unfolding serve
  serve-Harmless call c r s = elim (roles-cases call) [
    | inl free ↦ inr (admitted-Harmless (authenticate pw jwt true (is_public call) r) call c s free)
    | inr (roles, private) ↦
        elim (admitted-cases (authenticate pw jwt true (is_public call) r) call c s) [
          | inr same ↦ inr (Harmless-same s _ same)
          | inl (seen, (let_in, allowed)) ↦
              let (token, (id, (there, (verified, (filled_id, user))))) =
                authenticate_admin pw jwt r seen
                  (subst (λ b. authenticate pw jwt true b r ≡ ok seen) private let_in)
                  (subst (λ q. authorize true q seen ≡ ok tt) roles allowed) in
              inl (token, (id, (there, (verified, filled_id))))
        ]
  ]

  -- A route that is not public answers 401 and does nothing for a request without a token, or with
  -- one that the server's secret does not verify.
  pub serve-unauthorized :
      (call : Call Num) (c : Context Num) (r : RequestWithUser) (s : S)
      → is_public call ≡ false
      → ((token : String) → extract_token pw r ≡ some token → jwt.verify token ≡ none)
      → (m : String) × (serve adb udb pw jwt n v week_before call c r s
          ≡ (s, thrown (unauthorized m)))
  unfolding serve authenticate
  serve-unauthorized call c r s private bad = elim (Option-cases (extract_token pw r)) [
    | inl e ↦ ("Missing authentication token", rw (private, e) refl)
    | inr (token, e) ↦ elim (Bool-cases (token == "")) [
      | inl blank ↦ ("Missing authentication token", rw (private, e, blank) refl)
      | inr filled_token ↦
          ("Invalid or expired token", rw (private, e, filled_token, bad token e) refl)
    ]
  ]

  -- A user who is no administrator is answered 403 on a route that asks for ADMIN, and nothing is
  -- done.
  pub serve-forbidden :
      (call : Call Num) (c : Context Num) (r : RequestWithUser) (s : S) (token id : String)
      → required_roles call ≡ admin ∷ []
      → extract_token pw r ≡ some token
      → token ≢ ""
      → jwt.verify token ≡ some (record { sub = some id; role = some viewer })
      → id ≢ ""
      → serve adb udb pw jwt n v week_before call c r s
        ≡ (s, thrown (forbidden "This action requires one of: ADMIN"))
  unfolding serve authenticate authorize
  serve-forbidden call c r s token id roles there not_blank verified has_id =
      let private : is_public call ≡ false = elim (roles-cases call) [
        | inl e ↦ absurd (cc (e, roles))
        | inr (_, p) ↦ p
      ] in
      let t : (token == "") ≡ false = ground (arith, eq_iff token "") in
      let i : (id == "") ≡ false = ground (arith, eq_iff id "") in
      rw (private, there, t, verified, i, roles) refl
