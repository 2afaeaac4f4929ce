-- ===== src/Containers.antt =====
-- apps/server/src/containers/containers.service.ts and containers.controller.ts. The service asks the
-- database first and calls the gateway when the answer is there: the row and the gateway's state at
-- that time are two arguments, and other events may come in between.
pub mod Laws
use docksight.Base.{
  ℕ, String, Bool, true, false, not, ◌&&◌, ◌==◌, List, [], ◌∷◌, Option, none, some, or_else,
  if◌then◌else◌,
}
use docksight.Json.{Numbers, Json, str}
use docksight.Text.{is_blank}
use docksight.Protocol.Container.{ContainerAction, start, stop, restart, remove, pause, unpause}
use docksight.Protocol.Messages.{ContainerResult, ContainerInspected, LogsChunk}
use docksight.Gateway.State.{Gateway}
use docksight.Gateway.Calls
use docksight.Gateway.Calls.{
  Answer, returned, thrown, promised, LogStreamOptions, send_container_command, stop_log_stream,
}
use docksight.Agents.{Agent}
use docksight.Hosts.{host_not_found}
use docksight.Http
use docksight.Http.{HttpException, bad_request, map_error, map_stream_error}

abbrev check_ids : String → String → Option String
check_ids host_id container_id =
    if is_blank host_id
    then some "hostId is required"
    else if is_blank container_id
    then some "containerId is required"
    else none

-- The exception that the service throws before it calls the gateway, or the agent to call.
pub data Target : Type 0 where
  refused : String → Target
  agent : Agent → Target

abbrev found_or : Option Agent → String → Target
found_or none host_id = refused (host_not_found host_id)
found_or (some a) host_id = agent a

abbrev checked_or : Option String → Option Agent → String → Target
checked_or (some error) found host_id = refused error
checked_or none found host_id = found_or found host_id

-- The guards at the head of the three operations; `found` is what `findById(hostId)` answers.
unfoldable pub target : Option Agent → String → String → Target
target found host_id container_id = checked_or (check_ids host_id container_id) found host_id

module _ {Num : Type 0} where
  abbrev run_on :
      Target
      → ContainerAction
      → String
      → Bool
      → String
      → Gateway Num
      → Gateway Num × Answer (ContainerResult Num)
  run_on (refused error) action container_id force request_id g = (g, thrown error)
  run_on (agent a) action container_id force request_id g =
      send_container_command a.uuid a.id action container_id force request_id g

  unfoldable pub run_lifecycle_action :
      Option Agent
      → String
      → String
      → ContainerAction
      → Bool
      → String
      → Gateway Num
      → Gateway Num × Answer (ContainerResult Num)
  run_lifecycle_action found host_id container_id action force request_id g =
      run_on (target found host_id container_id) action container_id force request_id g

  abbrev pub inspect_on :
      Target → String → String → Gateway Num → Gateway Num × Answer (ContainerInspected Num)
  inspect_on (refused error) container_id request_id g = (g, thrown error)
  inspect_on (agent a) container_id request_id g =
      Calls.inspect_container a.uuid a.id container_id request_id g

  unfoldable pub inspect_container :
      Option Agent
      → String
      → String
      → String
      → Gateway Num
      → Gateway Num × Answer (ContainerInspected Num)
  inspect_container found host_id container_id request_id g =
      inspect_on (target found host_id container_id) container_id request_id g

-- What a promise comes to, and what an exception that is thrown at once comes to as well.
pub data Settled (A : Type 0) : Type 0 where
  resolved : A → Settled A
  rejected : (error : String) → Settled A

module _ {Num : Type 0} where
  -- runAction of the controller: the answer to the browser when the action has settled.
  unfoldable pub action_response :
      Settled (ContainerResult Num) → Http.Response (ContainerResult Num)
  action_response (resolved r) = Http.ok r
  action_response (rejected error) = Http.thrown (map_error error)

  -- `result.error ?? 'Container inspect failed'`; in the contract an error is a text or null.
  abbrev inspect_error : Json Num → String
  inspect_error (str error) = error
  inspect_error _ = "Container inspect failed"

  -- `inspect` of the controller.
  unfoldable pub inspect_response :
      String → Settled (ContainerInspected Num) → Http.Response (ContainerInspected Num)
  inspect_response host_id (resolved r) =
      if is_blank host_id
      then Http.thrown (bad_request "hostId query parameter is required")
      else if r.ok
      then Http.ok r
      else Http.thrown (bad_request (inspect_error r.error))
  inspect_response host_id (rejected error) =
      if is_blank host_id
      then Http.thrown (bad_request "hostId query parameter is required")
      else Http.thrown (map_error error)

-- `tail` and `follow` as the controller reads them; `parsed` is `Number.parseInt(tailRaw ?? '100', 10)`
-- and `positive` the test `parsed > 0`.
module _ (n : Numbers) where
  open n use {Num, is_finite, of_ℕ}

  abbrev pub tail_of : (parsed : Num) → (positive : Bool) → Num
  tail_of parsed positive = if is_finite parsed && positive then parsed else of_ℕ 100

  abbrev pub follow_of : Option String → Bool
  follow_of none = true
  follow_of (some raw) = not (raw == "false")

  abbrev pub start_on :
      Target → String → Num → Bool → ℕ → String → Gateway Num → Gateway Num × Answer String
  start_on (refused error) container_id tail follow on_chunk request_id g = (g, thrown error)
  start_on (agent a) container_id tail follow on_chunk request_id g =
      Calls.start_log_stream n
        (record {
          agent_uuid = a.uuid;
          host_id = a.id;
          container_id = container_id;
          tail = some tail;
          follow = some follow;
          on_chunk = on_chunk;
        })
        request_id g

  unfoldable pub start_log_stream :
      Option Agent
      → String
      → String
      → Option Num
      → Option Bool
      → ℕ
      → String
      → Gateway Num
      → Gateway Num × Answer String
  start_log_stream found host_id container_id tail follow on_chunk request_id g =
      start_on (target found host_id container_id) container_id (or_else tail (of_ℕ 100))
        (or_else follow true) on_chunk request_id g

  -- `streamLogs` up to the call that opens the stream.
  unfoldable pub stream_logs :
      Option Agent
      → String
      → String
      → (parsed : Num) → (positive : Bool) → Option String
      → ℕ
      → String
      → Gateway Num
      → Gateway Num × Http.Response (Answer String)
  stream_logs found host_id container_id parsed positive follow_raw on_chunk request_id g =
      if is_blank host_id
      then (g, Http.thrown (bad_request "hostId query parameter is required"))
      else let (h, answer) =
          start_log_stream found host_id container_id (some (tail_of parsed positive))
            (some (follow_of follow_raw)) on_chunk request_id g in
        (h, Http.ok answer)

-- One SSE request of `streamLogs`: the two variables of its closure, and what was sent to the browser,
-- newest first.
pub data StreamEvent (Num : Type 0) : Type 0 where
  subscribed : (request_id : String) → StreamEvent Num
  chunk_sent : LogsChunk Num → StreamEvent Num
  failed : HttpException → StreamEvent Num

pub record LogStream (Num : Type 0) : Type 0 where
  pub request_id : Option String
  pub closed : Bool
  pub events : List (StreamEvent Num)

module _ {Num : Type 0} where
  unfoldable pub new_stream : LogStream Num
  new_stream = record { request_id = none; closed = false; events = [] }

  abbrev push : StreamEvent Num → LogStream Num → LogStream Num
  push e s = record s { events = e ∷ s.events }

  -- onChunk
  unfoldable pub on_chunk : LogsChunk Num → LogStream Num → LogStream Num
  on_chunk payload s = if s.closed then s else push (chunk_sent payload) s

  -- The `then` and the `catch` of startLogStream; rxjs drops what is sent to a closed subscriber.
  unfoldable pub on_started : Answer String → LogStream Num → LogStream Num
  on_started (returned id) s =
      let t = record s { request_id = some id } in if s.closed then t else push (subscribed id) t
  on_started (thrown error) s = if s.closed then s else push (failed (map_stream_error error)) s
  on_started (promised ticket) s = s

  abbrev stop_if : Option String → Gateway Num → Gateway Num
  stop_if none g = g
  stop_if (some id) g = if id == "" then g else stop_log_stream id g

  -- The teardown, when the browser has gone.
  unfoldable pub teardown : LogStream Num → Gateway Num → LogStream Num × Gateway Num
  teardown s g = (record s { closed = true }, stop_if s.request_id g)
