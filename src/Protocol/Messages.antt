-- ===== src/Protocol/Messages.antt =====
-- The message types and payloads of packages/protocol/src/agent.ts, logs.ts and metrics.ts, and the
-- results of container.ts. An agent's payload is cast and not checked, so a field that the server
-- only passes on is kept as the JSON value that arrived.
use docksight.Base.{String, Bool, List, Option}
use docksight.Json.{Json}

abbrev pub agent_register : String
agent_register = "agent.register"

abbrev pub agent_registered : String
agent_registered = "agent.registered"

abbrev pub agent_heartbeat : String
agent_heartbeat = "agent.heartbeat"

abbrev pub logs_subscribe : String
logs_subscribe = "logs.subscribe"

abbrev pub logs_unsubscribe : String
logs_unsubscribe = "logs.unsubscribe"

abbrev pub logs_chunk : String
logs_chunk = "logs.chunk"

abbrev pub metrics_host : String
metrics_host = "metrics.host"

pub data AgentStatus : Type 0 where
  online offline unknown : AgentStatus

abbrev pub status_text : AgentStatus → String
status_text online = "ONLINE"
status_text offline = "OFFLINE"
status_text unknown = "UNKNOWN"

pub record AgentRegister (Num : Type 0) : Type 0 where
  pub uuid : Json Num
  pub hostname : Json Num
  pub os : Json Num
  pub architecture : Json Num
  pub version : Json Num

pub record AgentRegistered : Type 0 where
  pub id : String
  pub uuid : String
  pub status : String
  pub message : String

pub record ContainerResult (Num : Type 0) : Type 0 where
  pub request_id : String
  pub action : Option (Json Num)
  pub container_id : Option (Json Num)
  pub ok : Bool
  pub message : Json Num
  pub error : Json Num

pub record ContainerInspected (Num : Type 0) : Type 0 where
  pub request_id : String
  pub container : Json Num
  pub ok : Bool
  pub error : Json Num

pub record LogsChunk (Num : Type 0) : Type 0 where
  pub request_id : String
  pub container_id : Option (Json Num)
  pub entries : List (Json Num)
