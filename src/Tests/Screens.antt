-- ===== src/Tests/Screens.antt =====
-- The configuration of the server, and the screens of the web client.
use docksight.Base.{
  ℕ, suc, String, true, false, ◌≡◌, refl, ◌≢◌, ◌≤◌, ◌↔◌, [], ◌∷◌, List, none, some, ◌==◌, eq_refl,
  map,
}
use docksight.Http.{conflict, ok, thrown}
use docksight.Protocol.Container.{start, stop, restart, remove, pause, unpause}
use docksight.Users.{admin, create_first_admin}
use docksight.Auth.{LoginResult, RequestWithUser, authorize}
use docksight.Server.Config.{AuthEnv, loaded, auth_config}
use docksight.Server.Config.Boot.{IsBootable, auth_config_lem}
use docksight.Web.Api.{Texts, unreachable, accepted}
use docksight.Web.Session.{
  Session, setup_required, unauthenticated, sign_in_answered, first_admin_answered, use_is_admin,
  apply,
}
use docksight.Web.Screens.{Router, Location, screen, follow, setup_form}
use docksight.Web.Screens.Settles.{Fits, follow-Fits}
use docksight.Web.Screens.Forms.{setup_stuck}
use docksight.Web.RowActions.{
  row_controls, drawer_controls, row_enables, menu_enables, drawer_enables,
}
use docksight.Web.RowActions.Offers.{offered, offered_lem, use_is_admin-authorize}
use docksight.Web.Environment.{hide_value, shown_value, copied_value}
use docksight.Web.Environment.Hidden.{NoEquals, entry_of, shown_value_lem}
use docksight.Web.LogsView.{LogEntry, error, warn, debug, plain, detect_level}
use docksight.Web.Toasts.{Toast, info, ToastEvent, pushed, dismissed, elapsed, no_toasts, toast_run}
use docksight.Web.Toasts.Gone.{toasts_go}
use docksight.Tests.Users.{
  Accounts, accounts, passwords, no_accounts, add_account, root_data, root, root-create_first_admin,
}

abbrev decimal : ℕ → String
decimal n = "n"

abbrev secret : String
secret = "0123456789abcdef0123456789abcdef"

abbrev auth_env : AuthEnv
auth_env = record { jwt_secret = secret; jwt_expires_in = "30m" }

auth_config_lem_example :
    (auth_config decimal (some secret) (some " 30m ") ≡ loaded auth_env)
    ↔ IsBootable decimal (some secret) (some " 30m ") auth_env
auth_config_lem_example = auth_config_lem decimal (some secret) (some " 30m ") auth_env

abbrev router : Router
router = record {
  is_at = λ p q. p == q;
  host_of = λ p. none;
  is_at_self = λ p. eq_refl p;
  login_is_not_setup = refl;
  login_is_not_dashboard = refl;
  setup_is_not_dashboard = refl;
  root_is_not_dashboard = refl;
}

abbrev at_hosts : Location
at_hosts = record { pathname = "/hosts"; search = "?tab=logs"; from = none }

follow-Fits_example :
    Fits unauthenticated (screen router unauthenticated (follow router 1 unauthenticated at_hosts))
    × ((k : ℕ)
        → follow router (suc k) unauthenticated at_hosts ≡ follow router 1 unauthenticated at_hosts)
follow-Fits_example = follow-Fits router unauthenticated at_hosts

abbrev texts : Texts ℕ
texts = record { of_number = λ n. "n"; of_value = λ v. "v" }

abbrev new_instance : Session
new_instance = record {
  tokens = record { cached = none; stored = none; usable = true };
  status = setup_required;
  user = none;
}

setup_stuck_example :
    let after =
      apply texts
        (sign_in_answered (unreachable "offline"))
        (apply texts (first_admin_answered (accepted root)) new_instance) in
    (screen router after.status (follow router 1 after.status at_hosts) ≡ setup_form)
    × ((e p salt : String) (later looked now : Accounts)
        → 1 ≤ later.size
        → create_first_admin accounts passwords e p salt later looked now
          ≡ (now, thrown (conflict "DockSight has already been set up")))
setup_stuck_example =
    setup_stuck router texts accounts passwords "ada@x.io" "12345678" "salt" "offline" no_accounts
      no_accounts no_accounts (add_account root_data no_accounts) root new_instance at_hosts refl
      root-create_first_admin

abbrev no_name : String → String
no_name s = s

offered_lem_example :
    let c = row_controls no_name "paused" false true true in
    (no_name "paused" ≡ "running"
      → (offered (row_enables c) ≡ stop ∷ restart ∷ [])
        × (offered (menu_enables c) ≡ stop ∷ restart ∷ pause ∷ remove ∷ []))
    × (no_name "paused" ≡ "paused"
        → (offered (row_enables c) ≡ [])
          × (offered (menu_enables c) ≡ start ∷ unpause ∷ remove ∷ []))
    × (no_name "paused" ≢ "running"
        → no_name "paused" ≢ "paused"
        → (offered (row_enables c) ≡ start ∷ []) × (offered (menu_enables c) ≡ start ∷ remove ∷ []))
    × (offered (
          drawer_enables (
            drawer_controls
              (some (record { running = true; paused = true }))
              "paused"
              false
              true
              true))
        ≡ stop ∷ restart ∷ unpause ∷ remove ∷ [])
offered_lem_example = offered_lem no_name "paused"

abbrev root_result : LoginResult
root_result = record { access_token = "t1"; user = root }

abbrev root_request : RequestWithUser
root_request = record {
  user = some (record { id = "a1"; role = admin });
  authorization = none;
  url = none;
  access_token = none;
}

use_is_admin-authorize_example :
    (use_is_admin (apply texts (sign_in_answered (accepted root_result)) new_instance) ≡ true)
    ↔ (authorize true (admin ∷ []) root_request ≡ ok tt)
use_is_admin-authorize_example =
    use_is_admin-authorize texts root_result new_instance root_request refl

shown_value_lem_example :
    (hide_value no_name "db_pass" ≡ true
      → shown_value no_name false (entry_of "db_pass" "x")
        ≡ shown_value no_name false (entry_of "db_pass" "y"))
    × (hide_value no_name "db_pass" ≡ false
        → NoEquals "x"
        → shown_value no_name false (entry_of "db_pass" "x") ≡ "x")
    × (NoEquals "x" → shown_value no_name true (entry_of "db_pass" "x") ≡ "x")
    × (NoEquals "x" → copied_value (entry_of "db_pass" "x") ≡ entry_of "db_pass" "x")
shown_value_lem_example =
    shown_value_lem no_name "db_pass" "x" "y"
      (refl, (refl, (refl, (refl, (refl, (refl, (refl, tt)))))))

abbrev renamed_toast : Toast
renamed_toast = record { id = "i1"; tone = info; title = "Host renamed"; description = none }

abbrev toast_events : List ToastEvent
toast_events =
    pushed renamed_toast ∷ pushed (record renamed_toast { id = "i2" }) ∷ dismissed "i2" ∷ []

toasts_go_example :
    let s = toast_run toast_events no_toasts in (toast_run (map elapsed s.timers) s).toasts ≡ []
toasts_go_example = toasts_go toast_events

abbrev said : String → LogEntry
said message = record { timestamp = "t"; stream = "stdout"; message = some message }

upper_case_is_error : detect_level (said "Request FAILED: x") ≡ error
unfolding detect_level
upper_case_is_error = refl

part_of_word_is_plain : detect_level (said "my_errors=0, stderr9") ≡ plain
unfolding detect_level
part_of_word_is_plain = refl

start_of_word_is_warn : detect_level (said "Deprecated info") ≡ warn
unfolding detect_level
start_of_word_is_warn = refl

digit_joins_word : detect_level (said "error1 DEBUG") ≡ debug
unfolding detect_level
digit_joins_word = refl
