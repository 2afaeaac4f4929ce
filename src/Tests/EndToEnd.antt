-- ===== src/Tests/EndToEnd.antt =====
-- A rename and a deletion that a user makes on the page, up to what comes of them.
use docksight.Base.{ℕ, String, true, false, ◌≡◌, refl, ◌≢◌, [], ◌∷◌, List, none, some}
use docksight.Text.{trim, trim_start, trim_end, units, is_blank}
use docksight.Json.{Json, Fields, bool, str, obj, end, field}
use docksight.Dict.{get}
use docksight.Gateway.State.{sent, resolve_command, timer_of, client_of}
use docksight.Gateway.Calls.{command_envelope, promised}
use docksight.Gateway.Handlers.{handle_container_result, result_of}
use docksight.Web.Commands.{Variables}
use docksight.Web.Commands.Report.{action_body}
use docksight.Web.Commands.Served.{force_told, command_end_to_end}
use docksight.Protocol.Container.{remove}
use docksight.Agents.{find_by_id}
use docksight.Users.{admin}
use docksight.Auth.{
  RequestWithUser, extract_token, authenticate, authorize, from_authorization_header,
}
use docksight.Hosts.{HostDto}
use docksight.Http.{ok}
use docksight.Server.{action, command, update_display_name, host, serve}
use docksight.Server.Rename.{rename_body}
use docksight.Web.HostName.{host_display_name, validate_host_display_name}
use docksight.Web.HostName.Shown.{received_host}
use docksight.Web.Rename.{RenameDialog, RenameRequest, on_submit, set_renamed, find_host}
use docksight.Web.Rename.Served.{rename_end_to_end}
use docksight.Tests.Samples.{numbers, busy}
use docksight.Tests.Table.{table, row, rows}
use docksight.Tests.Users.{accounts, passwords, no_accounts}
use docksight.Tests.Server.{validators, two_tokens, request_with, context, server, week_before}

-- A rename, from the form to the lists.
abbrev rename_dialog : RenameDialog
rename_dialog = record {
  host_id = "h1";
  value = " Main ";
  local_error = none;
  api_error = none;
  is_pending = false;
  is_open = true;
}

abbrev admin_request : RequestWithUser
admin_request = request_with (some "bearer t1")

abbrev admin_seen : RequestWithUser
admin_seen = record admin_request { user = some (record { id = "a1"; role = admin }) }

admin-authenticate : authenticate passwords two_tokens true false admin_request ≡ ok admin_seen
unfolding authenticate extract_token from_authorization_header trim trim_start trim_end
admin-authenticate = refl

admin-authorize : authorize true (admin ∷ []) admin_seen ≡ ok tt
unfolding authorize
admin-authorize = refl

main_is_valid : validate_host_display_name " Main " ≡ none
unfolding validate_host_display_name trim trim_start trim_end units
main_is_valid = refl

h1_is_known : find_by_id table "h1" rows ≡ some row
unfolding find_by_id
h1_is_known = refl

abbrev cached_host : HostDto ℕ
cached_host = record {
  id = "h1";
  uuid = "u1";
  hostname = "alpha";
  display_name = "alpha";
  os = "linux";
  architecture = "x86_64";
  version = "1.0.0";
  status = "OFFLINE";
  last_seen = some 1000;
  metrics = record {
    host_id = "h1";
    cpu = docksight.Json.null;
    memory = docksight.Json.null;
    collected_at = none;
  };
}

h1_is_cached : find_host "h1" (cached_host ∷ []) ≡ some cached_host
unfolding find_host
h1_is_cached = refl

rename_end_to_end_example :
    (request : RenameRequest) × ((dto : HostDto ℕ) × ((after : List (HostDto ℕ)) × (let (
      t, answer,
    ) =
            serve table accounts passwords two_tokens numbers validators week_before
              (update_display_name request.host_id (rename_body request.display_name))
              context
              admin_request
              server in
          ((on_submit rename_dialog).1 ≡ some request)
          × (answer ≡ ok (host dto))
          × (set_renamed dto (some (cached_host ∷ [])) ≡ some after)
          × (find_host "h1" after ≡ some dto)
          × (host_display_name (received_host dto) ≡ trim " Main ")
          × ((i : String) → i ≢ "h1" → find_host i after ≡ find_host i (cached_host ∷ []))
          × (find_by_id table "h1" t.agents
              ≡ some (record row { display_name = some (trim " Main "); updated_at = 5000 })))))
rename_end_to_end_example =
    rename_end_to_end table accounts passwords two_tokens numbers validators week_before
      rename_dialog context admin_request admin_seen server row (cached_host ∷ []) cached_host
      admin-authenticate admin-authorize main_is_valid h1_is_known h1_is_cached

-- A deletion, from the row to the agent's answer.
abbrev deletion : Variables
deletion = record {
  container_id = "c1";
  host_id = "h1";
  action = remove;
  container_name = "web";
  force = true;
}

abbrev deleted : Fields ℕ
deleted = field "requestId" (str "r9") (field "ok" (bool true) end)

h1_not_blank : is_blank "h1" ≡ false
unfolding is_blank trim trim_start trim_end
h1_not_blank = refl

c1_not_blank : is_blank "c1" ≡ false
unfolding is_blank trim trim_start trim_end
c1_not_blank = refl

u1_is_open : client_of "u1" busy ≡ some 2
unfolding client_of get docksight.Dict.set docksight.Dict.empty
u1_is_open = refl

command_end_to_end_example :
    let (t, answer) =
      serve table accounts passwords two_tokens numbers validators week_before
        (action remove "c1" (obj (action_body deletion)))
        context
        admin_request
        server in
    let done = handle_container_result numbers deleted t.gateway in
    (answer ≡ ok (command (promised 2)))
    × (t.agents ≡ rows)
    × (t.users ≡ no_accounts)
    × (done.log
        ≡ resolve_command 2 (result_of numbers "r9" deleted)
          ∷ sent 2 (command_envelope remove "r9" "c1" (force_told deletion))
          ∷ busy.log)
    × (get "r9" done.pending_commands ≡ none)
    × (timer_of 2 done.timers ≡ none)
command_end_to_end_example =
    command_end_to_end table accounts passwords two_tokens numbers validators week_before deletion
      context admin_request admin_seen server row 2 deleted admin-authenticate admin-authorize
      h1_not_blank c1_not_blank h1_is_known u1_is_open refl
