-- ===== src/Auth/Laws.antt =====
-- Who gets through the guards.
use docksight.Base.{
  String, true, false, ◌≡◌, refl, ◌≢◌, [], ◌∷◌, Option, none, some, eq_iff, arith, Option-cases,
  inl, inr,
}
use docksight.Json.{filled}
use docksight.Http.{unauthorized, ok, thrown}
use docksight.Users.{UserRole, admin, Passwords}
use docksight.Auth.{
  JwtPayload, JwtService, RequestWithUser, extract_token, authenticate, authorize,
  from_authorization_header, on_logs, from_event_source_query, with_user, checked_token,
}

module _ (pw : Passwords) (jwt : JwtService) where
  abbrev Seen : Option String → Option UserRole → RequestWithUser → Type 0
  Seen sub role s =
      (id : String) × ((q : UserRole) × ((sub ≡ some id)
          × ((role ≡ some q) × (s.user ≡ some (record { id = id; role = q })))))

  with_user-ok :
      (sub : Option String) (role : Option UserRole) (r s : RequestWithUser)
      → with_user pw jwt sub role r ≡ ok s
      → Seen sub role s
  with_user-ok (some id) (some q) r s e = (id, (q, (refl, (refl, cc e))))
  with_user-ok (some id) none r s e = cc
  with_user-ok none role r s e = cc

  checked_token-ok :
      (o : Option String) (r s : RequestWithUser)
      → checked_token pw jwt o r ≡ ok s
      → (token : String) × ((p : JwtPayload) × ((o ≡ some token)
            × ((jwt.verify token ≡ some p) × Seen (filled p.sub) p.role s)))
  checked_token-ok none r s e = cc
  checked_token-ok (some token) r s e = elim (Option-cases (jwt.verify token)) [
    | inl n ↦ absurd (ground arith)
    | inr (p, v) ↦
        (token, (p, (refl, (v, with_user-ok (filled p.sub) p.role r s (ground (arith, e, v))))))
  ]

  filled-some : (o : Option String) {t : String} → filled o ≡ some t → (o ≡ some t) × (t ≢ "")
  filled-some none e = cc
  filled-some (some t) e = (ground arith, ground (arith, eq_iff t ""))

  -- A request that gets through both guards of a route that is not public and asks for ADMIN carries a
  -- token that the server's secret verifies, with a user's id that is not empty and the role ADMIN,
  -- and that is the user the handler sees.
  pub authenticate_admin :
      (r s : RequestWithUser)
      → authenticate pw jwt true false r ≡ ok s
      → authorize true (admin ∷ []) s ≡ ok tt
      → (token : String) × ((id : String) × ((extract_token pw r ≡ some token)
            × ((jwt.verify token ≡ some (record { sub = some id; role = some admin }))
                × ((id ≢ "") × (s.user ≡ some (record { id = id; role = admin }))))))
  unfolding authenticate authorize
  authenticate_admin r s e f =
      let (token, (p, (o, (v, (id, (q, (sub, (role, seen)))))))) =
        checked_token-ok (filled (extract_token pw r)) r s e in
      let (there, _) = filled-some (extract_token pw r) o in
      let (has_sub, has_id) = filled-some p.sub sub in
      let same : q ≡ admin = ground (arith, f, seen) in
      (
        token,
        (
          id,
          (there, (ground (arith, v, has_sub, role, same), (has_id, ground (arith, seen, same)))),
        ),
      )

  -- Without a bearer token in the header, a token in the query is taken only where the url is that of
  -- a log stream; on any other route that is not public the request is refused.
  pub authenticate-query :
      (r : RequestWithUser)
      → from_authorization_header pw r ≡ none
      → on_logs r.url ≡ false
      → authenticate pw jwt true false r ≡ thrown (unauthorized "Missing authentication token")
  unfolding authenticate extract_token from_event_source_query
  authenticate-query r e f = rw (e, f) refl
