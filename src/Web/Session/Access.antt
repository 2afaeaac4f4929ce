-- ===== src/Web/Session/Access.antt =====
-- How a session of the web client is gained, kept over a reload and lost.
use docksight.Base.{
  String, ◌≡◌, refl, ap, ◌∙◌, inl, inr, Bool, true, false, Option, none, some, is_some, ◌==◌,
  Bool-cases, arith,
}
use docksight.Json.{Json}
use docksight.Users.{AuthUser}
use docksight.Auth.{LoginResult}
use docksight.Web.Tokens.{get_token, clear_token, has_token}
use docksight.Web.Api.{
  Reply, unreachable, refused, accepted, Answer, returned, raised, drops_token, Texts,
}
use docksight.Web.Session.{
  AuthStatus, loading, unauthenticated, authenticated, setup_required, Session, drop_token, Event,
  setup_answered, profile_answered, sign_in_answered, first_admin_answered, other_answered,
  token_read, signed_out_by_user, finish_request, with_setup, apply,
}
use docksight.Web.Session.Laws.{is_authenticated}

-- An answer that admits a user, with the user.
abbrev pub admitted : {Num : Type 0} → Event Num → Option AuthUser
admitted (profile_answered token (accepted u)) = some u
admitted (sign_in_answered (accepted r)) = some r.user
admitted _ = none

-- The session has the status and the user that it has to after the event.
abbrev pub Admits : {Num : Type 0} → Event Num → Session → Type 0
Admits e s = (is_authenticated s.status ≡ is_some (admitted e)) × (s.user ≡ admitted e)

drop_token-user :
    (s : Session)
    → is_authenticated s.status ≡ false
    → ((drop_token s).status ≡ s.status) × ((drop_token s).user ≡ s.user)
unfolding drop_token
drop_token-user s h = go s.status refl
  where
    go :
        (st : AuthStatus)
        → s.status ≡ st
        → ((drop_token s).status ≡ s.status) × ((drop_token s).user ≡ s.user)
    go authenticated e = ground arith
    go loading e = (ground arith, ground arith)
    go unauthenticated e = (ground arith, ground arith)
    go setup_required e = (ground arith, ground arith)

-- The token that is left after it has been dropped, and the status.
drop_token-out :
    (s : Session)
    → (is_authenticated (drop_token s).status ≡ false) × (get_token (drop_token s).tokens ≡ none)
unfolding drop_token clear_token get_token
drop_token-out s = go s.status refl
  where
    go :
        (st : AuthStatus)
        → s.status ≡ st
        → (is_authenticated (drop_token s).status ≡ false)
          × (get_token (drop_token s).tokens ≡ none)
    go authenticated e = (ground arith, ground arith)
    go loading e = (ground arith, ground arith)
    go unauthenticated e = (ground arith, ground arith)
    go setup_required e = (ground arith, ground arith)

with_setup-none :
    {Num : Type 0}
    → (a : Answer Num Bool) (s : Session) → is_authenticated s.status ≡ false
    → s.user ≡ none
    → (is_authenticated (with_setup a s).status ≡ false) × ((with_setup a s).user ≡ none)
with_setup-none (returned true) s h n = (refl, refl)
with_setup-none (returned false) s h n = elim (Bool-cases (has_token s.tokens)) [
  | inl e ↦ rw e (h, n)
  | inr e ↦ rw e (refl, refl)
]
with_setup-none (raised e) s h n = (refl, refl)

module _ {Num : Type 0} (texts : Texts Num) where
  finish_request-user :
      {A : Type 0}
      → (token : Option String) (reply : Reply Num A) (s : Session)
      → is_authenticated s.status ≡ false
      → ((finish_request texts token reply s).0.status ≡ s.status)
        × ((finish_request texts token reply s).0.user ≡ s.user)
  unfolding finish_request
  finish_request-user token reply s h = elim (Bool-cases (drops_token token reply)) [
    | inl e ↦ rw e (drop_token-user s h)
    | inr e ↦ rw e (refl, refl)
  ]

  finish_request-none :
      {A : Type 0}
      → (token : Option String) (reply : Reply Num A) (s : Session)
      → is_authenticated s.status ≡ false
      → s.user ≡ none
      → (is_authenticated (finish_request texts token reply s).0.status ≡ false)
        × ((finish_request texts token reply s).0.user ≡ none)
  finish_request-none token reply s h n =
      let (p, q) = finish_request-user token reply s h in (ap is_authenticated p ∙ h, q ∙ n)

  -- A session that is not authenticated, and so has no user, becomes authenticated exactly by the answer to a login or to
  -- the question who is signed in, and then its user is the one in the answer; no other event changes that.
  pub apply-Admits :
      (e : Event Num) (s : Session)
      → is_authenticated s.status ≡ false
      → s.user ≡ none
      → Admits e (apply texts e s)
  unfolding apply
  apply-Admits (setup_answered reply) s h n =
      let (next, a) = finish_request texts none reply s in
      let (p, q) = finish_request-none none reply s h n in with_setup-none a next p q
  apply-Admits (profile_answered token (accepted u)) s h n = (refl, refl)
  apply-Admits (profile_answered token (refused status body)) s h n = (refl, refl)
  apply-Admits (profile_answered token (unreachable m)) s h n = (refl, refl)
  apply-Admits (sign_in_answered (accepted r)) s h n = (refl, refl)
  apply-Admits (sign_in_answered (refused status body)) s h n =
      finish_request-none {A = LoginResult} none (refused status body) s h n
  apply-Admits (sign_in_answered (unreachable m)) s h n = (h, n)
  apply-Admits (first_admin_answered reply) s h n = finish_request-none none reply s h n
  apply-Admits (other_answered token reply) s h n = finish_request-none token reply s h n
  apply-Admits token_read s h n = (h, n)
  apply-Admits signed_out_by_user s h n = (refl, refl)

  -- A call that was sent with a token and that the server refuses as unauthorized signs the session out
  -- and drops the token that is stored, whichever token that is.
  pub other_answered-401 :
      (token : String) (body : Json Num) (s : Session)
      → (token == "") ≡ false
      → (is_authenticated (apply texts (other_answered (some token) (refused 401 body)) s).status
          ≡ false)
        × (get_token (apply texts (other_answered (some token) (refused 401 body)) s).tokens ≡ none)
  unfolding apply finish_request drops_token
  other_answered-401 token body s h = rw h (drop_token-out s)
