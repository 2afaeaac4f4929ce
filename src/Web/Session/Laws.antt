-- ===== src/Web/Session/Laws.antt =====
-- What holds of every session of the web client.
use docksight.Base.{
  String, ◌≡◌, refl, sym, ◌∙◌, inl, inr, Bool, true, false, not, ◌&&◌, Option, none, some, is_some,
  List, [], ◌∷◌, Bool-cases, arith,
}
use docksight.Users.{AuthUser}
use docksight.Auth.{LoginResult}
use docksight.Web.Tokens.{Tokens, has_token}
use docksight.Web.Api.{Reply, Answer, returned, raised, drops_token, Texts}
use docksight.Web.Session.{
  AuthStatus, loading, unauthenticated, authenticated, setup_required, Session, new_session,
  drop_token, use_is_admin, Event, setup_answered, profile_answered, sign_in_answered,
  first_admin_answered, other_answered, token_read, signed_out_by_user, finish_request, with_setup,
  with_profile, with_login, apply, run,
}

abbrev pub is_authenticated : AuthStatus → Bool
is_authenticated authenticated = true
is_authenticated loading = false
is_authenticated unauthenticated = false
is_authenticated setup_required = false

-- A session has a user just where it is authenticated.
abbrev pub Agrees : Session → Type 0
Agrees s = is_authenticated s.status ≡ is_some s.user

drop_token-Agrees : (s : Session) → Agrees s → Agrees (drop_token s)
unfolding drop_token
drop_token-Agrees s h = go s.status refl
  where
    go : (st : AuthStatus) → s.status ≡ st → Agrees (drop_token s)
    go authenticated e = ground arith
    go loading e = ground arith
    go unauthenticated e = ground arith
    go setup_required e = ground arith

module _ {Num : Type 0} (texts : Texts Num) where
  finish_request-Agrees :
      {A : Type 0}
      → (token : Option String) (reply : Reply Num A) (s : Session) → Agrees s
      → Agrees (finish_request texts token reply s).0
  unfolding finish_request
  finish_request-Agrees token reply s h = elim (Bool-cases (drops_token token reply)) [
    | inl e ↦ rw e (drop_token-Agrees s h)
    | inr e ↦ rw e h
  ]

  with_setup-Agrees : (a : Answer Num Bool) (s : Session) → Agrees s → Agrees (with_setup a s)
  with_setup-Agrees (returned true) s h = refl
  with_setup-Agrees (returned false) s h = elim (Bool-cases (has_token s.tokens)) [
    | inl e ↦ rw e h
    | inr e ↦ rw e refl
  ]
  with_setup-Agrees (raised e) s h = refl

  with_profile-Agrees : (a : Answer Num AuthUser) (s : Session) → Agrees (with_profile a s)
  with_profile-Agrees (returned u) s = refl
  with_profile-Agrees (raised e) s = refl

  with_login-Agrees :
      (a : Answer Num LoginResult) (s : Session) → Agrees s → Agrees (with_login a s)
  with_login-Agrees (returned r) s h = refl
  with_login-Agrees (raised e) s h = h

  apply-Agrees : (e : Event Num) (s : Session) → Agrees s → Agrees (apply texts e s)
  unfolding apply
  apply-Agrees (setup_answered reply) s h =
      let (next, a) = finish_request texts none reply s in
      with_setup-Agrees a next (finish_request-Agrees none reply s h)
  apply-Agrees (profile_answered token reply) s h =
      let (next, a) = finish_request texts token reply s in with_profile-Agrees a next
  apply-Agrees (sign_in_answered reply) s h =
      let (next, a) = finish_request texts none reply s in
      with_login-Agrees a next (finish_request-Agrees none reply s h)
  apply-Agrees (first_admin_answered reply) s h = finish_request-Agrees none reply s h
  apply-Agrees (other_answered token reply) s h = finish_request-Agrees token reply s h
  apply-Agrees token_read s h = h
  apply-Agrees signed_out_by_user s h = refl

  run-Agrees : (es : List (Event Num)) (s : Session) → Agrees s → Agrees (run texts es s)
  unfolding run
  run-Agrees [] s h = h
  run-Agrees (e ∷ es) s h = run-Agrees es (apply texts e s) (apply-Agrees e s h)

  use_is_admin-none : (s : Session) → is_some s.user ≡ false → use_is_admin s ≡ false
  unfolding use_is_admin
  use_is_admin-none s h = go s.user refl
    where
      go : (o : Option AuthUser) → s.user ≡ o → use_is_admin s ≡ false
      go none e = ground arith
      go (some u) e = ground arith

  -- Whatever answers come, and in whatever order, the session has a user exactly while its status is
  -- authenticated, and in no other status does the client take the user for an administrator.
  pub run_agrees :
      (es : List (Event Num)) (t : Tokens)
      → let s = run texts es (new_session t) in
        (is_authenticated s.status ≡ is_some s.user)
        × ((use_is_admin s && not (is_authenticated s.status)) ≡ false)
  run_agrees es t =
      let s = run texts es (new_session t) in
      let h = run-Agrees es (new_session t) refl in
      elim (Bool-cases (is_authenticated s.status)) [
        | inl e ↦ (h, rw e (ground arith))
        | inr e ↦ (h, rw (use_is_admin-none s (sym h ∙ e)) refl)
      ]
