-- ===== src/Web/Commands/Report.antt =====
-- apps/web/src/hooks/useContainerCommands.ts and services/hosts.ts: the request of a command, and the
-- toast for its answer.
use docksight.Base.{String, Bool, true, false, Option, or_else, if◌then◌else◌}
use docksight.Text.{concat}
use docksight.Json.{Fields, end, field, str, bool}
use docksight.Protocol.Container.{
  ContainerAction, start, stop, restart, remove, pause, unpause, action_text,
}
use docksight.Web.Api.{Answer, returned, raised}
use docksight.Web.Commands.{Variables, past_tense, verb}

-- The body of the request: only `remove` has `force`.
abbrev pub action_body : {Num : Type 0} → Variables → Fields Num
action_body v = elim v.action [
  | remove ↦ field "hostId" (str v.host_id) (field "force" (bool v.force) end)
  | start ↦ field "hostId" (str v.host_id) end
  | stop ↦ field "hostId" (str v.host_id) end
  | restart ↦ field "hostId" (str v.host_id) end
  | pause ↦ field "hostId" (str v.host_id) end
  | unpause ↦ field "hostId" (str v.host_id) end
]

-- The path of the request; `encode` is encodeURIComponent.
abbrev pub action_path : (encode : String → String) → Variables → String
action_path encode v =
    concat "/containers/" (concat (encode v.container_id) (concat "/" (action_text v.action)))

pub record ActionResult : Type 0 where
  pub request_id : String
  pub action : ContainerAction
  pub container_id : String
  pub ok : Bool
  pub message : String
  pub error : Option String

pub record Toast : Type 0 where
  pub is_success : Bool
  pub title : String
  pub description : String

abbrev failed_toast : ContainerAction → String → Toast
failed_toast action description = record {
  is_success = false;
  title = concat "Could not " (concat (verb action) " container");
  description = description;
}

abbrev result_toast : ContainerAction → String → ActionResult → Toast
result_toast action name r =
    if r.ok
    then record {
      is_success = true;
      title = concat "Container " (past_tense action);
      description = concat name (concat " · " r.message);
    }
    else failed_toast action (or_else r.error r.message)

-- The toast for the answer to a command; `run` returns true just where it is a success.
abbrev pub report : {Num : Type 0} → ContainerAction → String → Answer Num ActionResult → Toast
report action name (returned r) = result_toast action name r
report action name (raised e) = failed_toast action e.message
