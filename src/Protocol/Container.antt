-- ===== src/Protocol/Container.antt =====
-- The container part of packages/protocol/src/container.ts.
use docksight.Base.{String, List, Option}

pub data ContainerAction : Type 0 where
  start stop restart remove pause unpause : ContainerAction

-- `ip` is optional in the source: `none` is a port without it.
pub record ContainerPort (Num : Type 0) : Type 0 where
  pub private : Num
  pub public : String
  pub protocol : String
  pub ip : Option String

pub record ContainerSummary (Num : Type 0) : Type 0 where
  pub id : String
  pub name : String
  pub image : String
  pub status : String
  pub state : String
  pub ports : List (ContainerPort Num)
  pub created : Num

abbrev pub container_list : String
container_list = "container.list"

abbrev pub container_listed : String
container_listed = "container.listed"

abbrev pub container_inspect : String
container_inspect = "container.inspect"

abbrev pub container_inspected : String
container_inspected = "container.inspected"

abbrev pub container_result : String
container_result = "container.result"

-- COMMAND_TYPE of the gateway: the message type of each lifecycle action.
abbrev pub command_type : ContainerAction → String
command_type start = "container.start"
command_type stop = "container.stop"
command_type restart = "container.restart"
command_type remove = "container.remove"
command_type pause = "container.pause"
command_type unpause = "container.unpause"

-- The name of an action, as the source writes it.
abbrev pub action_text : ContainerAction → String
action_text start = "start"
action_text stop = "stop"
action_text restart = "restart"
action_text remove = "remove"
action_text pause = "pause"
action_text unpause = "unpause"
