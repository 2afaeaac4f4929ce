-- ===== src/Web/Screens.antt =====
-- apps/web/src/app/App.tsx, components/auth/RequireAuth.tsx, features/auth/LoginPage.tsx and
-- features/auth/SetupPage.tsx: which screen a location shows, and the two forms before a session.
pub mod Settles
pub mod Forms
use docksight.Base.{
  ℕ, suc, zero, String, Bool, true, false, ◌≡◌, ◌||◌, not, Option, none, some, or_else, eqb, ltb,
  ◌==◌, if◌then◌else◌,
}
use docksight.Text.{concat, units}
use docksight.Web.Api.{ApiError, Answer, returned, raised}
use docksight.Users.{AuthUser}
use docksight.Web.Session.{AuthStatus, loading, unauthenticated, authenticated, setup_required}

-- What the router matches: `is_at` a path without parameters, and the host's id in /hosts/:hostId.
pub record Router : Type 0 where
  pub is_at : (pattern pathname : String) → Bool
  pub host_of : (pathname : String) → Option String
  -- a path is at itself, and the three paths that the program redirects to are not each other or /
  pub is_at_self : (p : String) → is_at p p ≡ true
  pub login_is_not_setup : is_at "/login" "/setup" ≡ false
  pub login_is_not_dashboard : is_at "/login" "/dashboard" ≡ false
  pub setup_is_not_dashboard : is_at "/setup" "/dashboard" ≡ false
  pub root_is_not_dashboard : is_at "/" "/dashboard" ≡ false

-- `from` of the location's state.
pub record Location : Type 0 where
  pub pathname : String
  pub search : String
  pub from : Option String

pub data Page : Type 0 where
  dashboard hosts containers images networks volumes metrics settings not_found : Page
  host_details : (host_id : String) → Page

pub data Screen : Type 0 where
  splash login_form setup_form : Screen
  page : Page → Screen
  navigate : (to : String) → (from : Option String) → Screen

module _ (router : Router) where
  open router use {is_at, host_of}

  abbrev host_page : Option String → Page
  host_page none = not_found
  host_page (some id) = host_details id

  -- AppRoutes
  unfoldable pub app_routes : String → Screen
  app_routes p =
      if is_at "/" p
      then navigate "/dashboard" none
      else page (
          if is_at "/dashboard" p
          then dashboard
          else if is_at "/hosts" p
          then hosts
          else if is_at "/containers" p
          then containers
          else if is_at "/images" p
          then images
          else if is_at "/networks" p
          then networks
          else if is_at "/volumes" p
          then volumes
          else if is_at "/metrics" p
          then metrics
          else if is_at "/settings" p
          then settings
          else host_page (host_of p))

  -- RequireAuth
  unfoldable pub require_auth : AuthStatus → Location → Screen
  unfolding app_routes
  require_auth loading l = splash
  require_auth setup_required l = navigate "/setup" none
  require_auth unauthenticated l = navigate "/login" (some (concat l.pathname l.search))
  require_auth authenticated l = app_routes l.pathname

  -- LoginPage, up to the form
  abbrev pub login_page : AuthStatus → Screen
  login_page setup_required = navigate "/setup" none
  login_page authenticated = navigate "/dashboard" none
  login_page _ = login_form

  -- SetupPage, up to the form
  abbrev pub setup_page : AuthStatus → Screen
  setup_page authenticated = navigate "/dashboard" none
  setup_page unauthenticated = navigate "/login" none
  setup_page _ = setup_form

  abbrev pub routes : AuthStatus → Location → Screen
  routes s l =
      if is_at "/login" l.pathname
      then login_page s
      else if is_at "/setup" l.pathname
      then setup_page s
      else require_auth s l

  -- App: AuthGate and the routes in it.
  unfoldable pub screen : AuthStatus → Location → Screen
  unfolding require_auth
  screen loading l = splash
  screen unauthenticated l = routes unauthenticated l
  screen authenticated l = routes authenticated l
  screen setup_required l = routes setup_required l

  -- Where a `Navigate` leads; any other screen stays.
  abbrev pub go_to : Screen → Location → Location
  go_to (navigate to from) l = record { pathname = to; search = ""; from = from }
  go_to _ l = l

  -- The location after a number of screens.
  unfoldable pub follow : ℕ → AuthStatus → Location → Location
  unfolding screen
  follow zero s l = l
  follow (suc k) s l = follow k s (go_to (screen s l) l)

-- The state of a form before a session.
pub record AuthForm : Type 0 where
  pub email : String
  pub password : String
  pub confirm : String
  pub error : Option String
  pub submitting : Bool

-- The disabled button of each form.
abbrev pub login_disabled : AuthForm → Bool
login_disabled f = f.submitting || f.email == "" || f.password == ""

abbrev pub setup_disabled : AuthForm → Bool
setup_disabled f =
    f.submitting || f.email == "" || ltb (units f.password) 8 || not (f.password == f.confirm)

-- `tooShort` and `mismatch` of the setup.
abbrev pub too_short : AuthForm → Bool
too_short f = if f.password == "" then false else ltb (units f.password) 8

abbrev pub mismatch : AuthForm → Bool
mismatch f = if f.confirm == "" then false else not (f.confirm == f.password)

-- The head of handleSubmit, and whether it goes on to the call.
unfoldable pub submit_login : AuthForm → AuthForm
submit_login f = record f { error = none; submitting = true }

unfoldable pub submit_setup : AuthForm → AuthForm × Bool
submit_setup f =
    if f.password == f.confirm
    then (record f { error = none; submitting = true }, true)
    else (record f { error = some "Passwords do not match" }, false)

module _ {Num : Type 0} where
  abbrev pub error_text : ApiError Num → String
  error_text e = if eqb e.status 0 then "Cannot reach the DockSight server." else e.message

  abbrev failed : ApiError Num → AuthForm → AuthForm
  failed e f = record f { error = some (error_text e); submitting = false }

  -- The rest of handleSubmit of the login, with the path to go to.
  unfoldable pub login_answered :
      Answer Num AuthUser → Location → AuthForm → AuthForm × Option String
  login_answered (returned u) l f =
      (record f { submitting = false }, some (or_else l.from "/dashboard"))
  login_answered (raised e) l f = (failed e f, none)

  -- The rest of handleSubmit of the setup.
  unfoldable pub setup_answered : Answer Num AuthUser → AuthForm → AuthForm × Option String
  setup_answered (returned u) f = (record f { submitting = false }, some "/dashboard")
  setup_answered (raised e) f = (failed e f, none)
