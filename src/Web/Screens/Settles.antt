-- ===== src/Web/Screens/Settles.antt =====
-- Where the redirects of the web client end, and what each user may see.
use docksight.Base.{
  ℕ, zero, suc, String, false, ◌≡◌, refl, Option, none, some, Bool-cases, inl, inr,
}
use docksight.Text.{concat}
use docksight.Users.{AuthUser}
use docksight.Web.Api.{returned}
use docksight.Web.Session.{AuthStatus, loading, unauthenticated, authenticated, setup_required}
use docksight.Web.Screens.{
  Router, Location, Page, dashboard, Screen, splash, login_form, setup_form, page, go_to,
  app_routes, require_auth, screen, follow, AuthForm, login_answered,
}

-- The screens that each status may show.
abbrev pub Fits : AuthStatus → Screen → Type 0
Fits loading x = x ≡ splash
Fits unauthenticated x = x ≡ login_form
Fits setup_required x = x ≡ setup_form
Fits authenticated x = (p : Page) × (x ≡ page p)

module _ (router : Router) where
  open router use {is_at}

  Fits-stays : (s : AuthStatus) (x : Screen) (l : Location) → Fits s x → go_to router x l ≡ l
  Fits-stays loading x l e = rw e refl
  Fits-stays unauthenticated x l e = rw e refl
  Fits-stays setup_required x l e = rw e refl
  Fits-stays authenticated x l (p, e) = rw e refl

  follow-stays :
      (k : ℕ) (s : AuthStatus) (l : Location)
      → go_to router (screen router s l) l ≡ l
      → follow router k s l ≡ l
  unfolding follow
  follow-stays zero s l e = refl
  follow-stays (suc k) s l e = rw e (follow-stays k s l e)

  -- A place where the router's facts decide the screen.
  at_login :
      (from : Option String)
      → screen router unauthenticated (record { pathname = "/login"; search = ""; from = from })
        ≡ login_form
  unfolding screen
  at_login from = rw (router.is_at_self "/login") refl

  at_setup :
      screen router setup_required (record { pathname = "/setup"; search = ""; from = none })
      ≡ setup_form
  unfolding screen
  at_setup = rw (router.login_is_not_setup, router.is_at_self "/setup") refl

  at_dashboard :
      screen router authenticated (record { pathname = "/dashboard"; search = ""; from = none })
      ≡ page dashboard
  unfolding screen require_auth app_routes
  at_dashboard =
      rw
        (
          router.login_is_not_dashboard,
          router.setup_is_not_dashboard,
          router.root_is_not_dashboard,
          router.is_at_self "/dashboard",
        )
        refl

  settles :
      (s : AuthStatus) (l : Location)
      → Fits s (screen router s (go_to router (screen router s l) l))
  unfolding screen require_auth app_routes
  settles loading l = refl
  settles unauthenticated l = elim (Bool-cases (is_at "/login" l.pathname)) [
    | inl e ↦ rw e (rw e refl)
    | inr e ↦ elim (Bool-cases (is_at "/setup" l.pathname)) [
      | inl f ↦ rw (e, f) (at_login none)
      | inr f ↦ rw (e, f) (at_login (some (concat l.pathname l.search)))
    ]
  ]
  settles setup_required l = elim (Bool-cases (is_at "/login" l.pathname)) [
    | inl e ↦ rw e at_setup
    | inr e ↦ elim (Bool-cases (is_at "/setup" l.pathname)) [
      | inl f ↦ rw (e, f) (rw (e, f) refl)
      | inr f ↦ rw (e, f) at_setup
    ]
  ]
  settles authenticated l = elim (Bool-cases (is_at "/login" l.pathname)) [
    | inl e ↦ rw e (dashboard, at_dashboard)
    | inr e ↦ elim (Bool-cases (is_at "/setup" l.pathname)) [
      | inl f ↦ rw (e, f) (dashboard, at_dashboard)
      | inr f ↦ elim (Bool-cases (is_at "/" l.pathname)) [
        | inl g ↦ rw (e, f, g) (dashboard, at_dashboard)
        | inr g ↦ rw (e, f, g) (rw (e, f, g) (_, refl))
      ]
    ]
  ]

  -- Whatever the location, after at most one redirect the client shows a screen that fits the session's
  -- status, and stays there: the splash while it is loading, the login form without a session, the setup
  -- form before the first administrator, and otherwise a page; so no page of the application is shown
  -- without a session.
  pub follow-Fits :
      (s : AuthStatus) (l : Location)
      → Fits s (screen router s (follow router 1 s l))
        × ((k : ℕ) → follow router (suc k) s l ≡ follow router 1 s l)
  unfolding follow
  follow-Fits s l = (
    settles s l,
    λ k.
        follow-stays k s (go_to router (screen router s l) l)
          (Fits-stays s _ (go_to router (screen router s l) l) (settles s l)),
  )

  -- A user without a session who opens a page of the application is led to the login form, and a login
  -- that succeeds leads back to the page's path and query, or to the dashboard where the form was opened
  -- itself.
  pub login_returns :
      (Num : Type 0) (l : Location) (f : AuthForm) (u : AuthUser)
      → is_at "/login" l.pathname ≡ false
      → is_at "/setup" l.pathname ≡ false
      → let there = follow router 1 unauthenticated l in
        (screen router unauthenticated there ≡ login_form)
        × ((login_answered {Num = Num} (returned u) there f).1 ≡ some (concat l.pathname l.search))
  unfolding follow screen require_auth login_answered
  login_returns Num l f u e g = rw (e, g) (at_login (some (concat l.pathname l.search)), refl)
