-- ===== src/Web/Commands.antt =====
-- apps/web/src/hooks/useContainerCommands.ts, with the dialog that it asks, useContainerAction.ts and
-- runContainerAction of services/hosts.ts.
pub mod Laws
pub mod Report
pub mod Served
use docksight.Base.{
  String, Bool, true, false, Option, none, some, List, [], ◌∷◌, ◌++◌, ◌==◌, is_some, or_else,
  if◌then◌else◌,
}
use docksight.Text.{concat, starts_with}
use docksight.Json.{Json, Fields, end, field, str, bool, filled}
use docksight.Protocol.Container.{
  ContainerAction, start, stop, restart, remove, pause, unpause, action_text, ContainerSummary,
}
use docksight.Web.Api.{Answer, returned, raised}
use docksight.Web.Confirm.{
  ConfirmToggle, ConfirmRequest, ConfirmResult, Dialog, new_dialog, confirm, settle_open,
  dialog_step, cancelled, DialogEvent, checked, dismissed, confirmed,
}

pub record ContainerRow (Num : Type 0) : Type 0 where
  pub container : ContainerSummary Num
  pub host_id : Option String
  pub hostname : Option String

abbrev pub past_tense : ContainerAction → String
past_tense start = "started"
past_tense stop = "stopped"
past_tense restart = "restarted"
past_tense remove = "deleted"
past_tense pause = "paused"
past_tense unpause = "resumed"

abbrev pub verb : ContainerAction → String
verb start = "start"
verb stop = "stop"
verb restart = "restart"
verb remove = "delete"
verb pause = "pause"
verb unpause = "resume"

-- What is sent: the variables of the mutation.
pub record Variables : Type 0 where
  pub container_id : String
  pub host_id : String
  pub action : ContainerAction
  pub container_name : String
  pub force : Bool

-- A command whose question is open.
pub record Asked (Num : Type 0) : Type 0 where
  pub row : ContainerRow Num
  pub host : String

-- name.replace(/^\//, '')
abbrev pub shown_name : String → String
shown_name String.[] = ""
shown_name (String.◌∷◌ c name) =
    if starts_with "/" (String.◌∷◌ c name) then name else String.◌∷◌ c name

abbrev pub is_running : {Num : Type 0} → ContainerRow Num → Bool
is_running row = row.container.state == "running"

abbrev force_toggle : ConfirmToggle
force_toggle = record {
  label = "Force delete";
  description =
      some "Kill the container first. Without this, Docker refuses to delete a running container.";
  default_checked = none;
}

abbrev pub delete_question : {Num : Type 0} → ContainerRow Num → ConfirmRequest
delete_question row = record {
  title = concat "Delete " (concat (shown_name row.container.name) "?");
  description =
      if is_running row
      then "This container is running. Deleting it cannot be undone."
      else "This cannot be undone.";
  confirm_label = "Delete";
  cancel_label = none;
  toggle = if is_running row then some force_toggle else none;
}

-- The commands of the page: the dialog, and what has been sent, the newest last.
pub record Commands (Num : Type 0) : Type 0 where
  pub dialog : Dialog (Asked Num)
  pub sent : List Variables

module _ {Num : Type 0} where
  abbrev pub variables : ContainerAction → Bool → Asked Num → Variables
  variables action force a = record {
    container_id = a.row.container.id;
    host_id = a.host;
    action = action;
    container_name = a.row.container.name;
    force = force;
  }

  abbrev pub new_commands : Commands Num
  new_commands = record { dialog = new_dialog; sent = [] }

  -- How `run` goes on with the answer to its question.
  abbrev pub go_on : ConfirmResult → Asked Num → List Variables
  go_on r a = if r.confirmed then variables remove r.toggled a ∷ [] else []

  abbrev pub go_on_all : List (Asked Num × ConfirmResult) → List Variables
  go_on_all [] = []
  go_on_all (p ∷ ps) = go_on p.1 p.0 ++ go_on_all ps

  unfoldable pub go_on_after :
      Dialog (Asked Num) × List (Asked Num × ConfirmResult) → Commands Num → Commands Num
  go_on_after now s = record { dialog = now.0; sent = s.sent ++ go_on_all now.1 }

  abbrev pub carry_on :
      Option String → ContainerRow Num → ContainerAction → Commands Num → Commands Num
  carry_on none row action s = s
  carry_on (some host) row action s =
      let a : Asked Num = record { row = row; host = host } in
      elim action [
        | remove ↦ go_on_after (confirm a (delete_question row) s.dialog) s
        | start ↦ record s { sent = s.sent ++ (variables start false a ∷ []) }
        | stop ↦ record s { sent = s.sent ++ (variables stop false a ∷ []) }
        | restart ↦ record s { sent = s.sent ++ (variables restart false a ∷ []) }
        | pause ↦ record s { sent = s.sent ++ (variables pause false a ∷ []) }
        | unpause ↦ record s { sent = s.sent ++ (variables unpause false a ∷ []) }
      ]

  -- `container.hostId ?? fallbackHostId`, which has to be truthy
  abbrev pub host_of : Option String → ContainerRow Num → Option String
  host_of fallback row = filled (elim row.host_id [ none ↦ fallback | some host ↦ some host ])

  -- run, up to the mutation or the question.
  unfoldable pub run_command :
      Option String → ContainerRow Num → ContainerAction → Commands Num → Commands Num
  unfolding go_on_after confirm
  run_command fallback row action s = carry_on (host_of fallback row) row action s

-- What happens on the page: a click on an action of a row, and what the user does to the dialog.
pub data PageEvent (Num : Type 0) : Type 0 where
  clicked : ContainerRow Num → ContainerAction → PageEvent Num
  box_checked : Bool → PageEvent Num
  declined accepted : PageEvent Num

module _ {Num : Type 0} (fallback : Option String) where
  unfoldable pub page_step : PageEvent Num → Commands Num → Commands Num
  unfolding run_command go_on_after dialog_step
  page_step (clicked row action) s = run_command fallback row action s
  page_step (box_checked b) s = go_on_after (dialog_step (checked b) s.dialog) s
  page_step declined s = go_on_after (dialog_step dismissed s.dialog) s
  page_step accepted s = go_on_after (dialog_step confirmed s.dialog) s

  unfoldable pub run_page : List (PageEvent Num) → Commands Num → Commands Num
  unfolding page_step
  run_page [] s = s
  run_page (e ∷ es) s = run_page es (page_step e s)
