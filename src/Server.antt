-- ===== src/Server.antt =====
-- The HTTP surface of apps/server/src: the routes of auth, setup, health, hosts and containers, with
-- their decorators, behind the two guards that app.module.ts registers. A request is handled in one
-- step: where a handler asks the database and then calls the gateway, events of agents may come
-- before and after it.
pub mod Config
pub mod Dto
pub mod Keeps
pub mod Guarded
pub mod Rename
pub mod FirstAdmin
use docksight.Base.{
  ℕ, String, Bool, true, false, List, [], ◌∷◌, Option, none, some, or_else, if◌then◌else◌,
}
use docksight.Json.{Numbers, Json}
use docksight.Text.{is_blank}
use docksight.Protocol.Container.{ContainerAction, start, stop, restart, remove, pause, unpause}
use docksight.Protocol.Messages.{ContainerResult, ContainerInspected}
use docksight.Gateway.State.{Gateway}
use docksight.Gateway.Calls
use docksight.Gateway.Calls.{Answer, returned, promised}
use docksight.Agents.{AgentTable, find_by_id}
use docksight.Users.{
  UserRole, admin, UserTable, Passwords, AuthUser, setup_required, create_first_admin,
}
use docksight.Auth
use docksight.Auth.{
  AuthenticatedUser, LoginResult, JwtService, RequestWithUser, authenticate, authorize, get_profile,
}
use docksight.Hosts
use docksight.Hosts.{HostsState, HostDto, HostMetricsDto, HostContainersDto}
use docksight.Containers
use docksight.Http.{
  HttpException, bad_request, internal, service_unavailable, map_error, Response, ok, thrown,
}
use Dto.{
  Validators, Credentials, ContainerRemoveBody, login_dto, create_admin_dto, container_action_dto,
  container_remove_dto, update_host_dto,
}

-- A route with what the request gives it: path, query and body. A query parameter that is missing
-- is "" where the handler treats the two alike.
pub data Call (Num : Type 0) : Type 0 where
  login create_admin : Json Num → Call Num
  me setup_status health list_hosts : Call Num
  update_display_name : (id : String) → Json Num → Call Num
  get_metrics list_containers delete_host : (id : String) → Call Num
  inspect : (id host_id : String) → Call Num
  action : ContainerAction → (id : String) → Json Num → Call Num
  stream_logs : (id host_id : String) → (tail follow : Option String) → Call Num

pub data Reply (Num : Type 0) : Type 0 where
  token : LoginResult → Reply Num
  user : AuthUser → Reply Num
  setup : (required : Bool) → Reply Num
  healthy done : Reply Num
  hosts : List (HostDto Num) → Reply Num
  host : HostDto Num → Reply Num
  metrics : HostMetricsDto Num → Reply Num
  containers : HostContainersDto Num → Reply Num
  command : Answer (ContainerResult Num) → Reply Num
  inspection : Answer (ContainerInspected Num) → Reply Num
  stream : Answer String → Reply Num

-- What else a request meets: the clock, random values, the database's state, `Number.parseInt(s, 10)`
-- and the callback of a log stream.
pub record Context (Num : Type 0) : Type 0 where
  pub now : ℕ
  pub request_id : String
  pub salt : String
  pub database_up : Bool
  pub parse_int : String → Num
  pub is_positive : Num → Bool
  pub on_chunk : ℕ

pub record Server (agent_table : AgentTable) (user_table : UserTable) (Num : Type 0) : Type 0 where
  pub agents : agent_table.Table
  pub users : user_table.Table
  pub gateway : Gateway Num

module _ {Num : Type 0} where
  -- `@Public()`
  unfoldable pub is_public : Call Num → Bool
  is_public (login body) = true
  is_public (create_admin body) = true
  is_public setup_status = true
  is_public health = true
  is_public _ = false

  -- `@Roles('ADMIN')`
  unfoldable pub required_roles : Call Num → List UserRole
  required_roles (update_display_name id body) = admin ∷ []
  required_roles (delete_host id) = admin ∷ []
  required_roles (action a id body) = admin ∷ []
  required_roles _ = []

  -- What a handler of the containers makes of the service's answer: an error is mapped at once.
  abbrev pub answered : {A : Type 0} → (Answer A → Reply Num) → Answer A → Response (Reply Num)
  answered reply (Calls.thrown error) = thrown (map_error error)
  answered reply answer = ok (reply answer)

  abbrev pub replied : {A : Type 0} → (A → Reply Num) → Response A → Response (Reply Num)
  replied reply (ok a) = ok (reply a)
  replied reply (thrown e) = thrown e

module _ (adb : AgentTable) (udb : UserTable) (pw : Passwords) (jwt : JwtService) (n : Numbers)
    (v : Validators n.Num) (week_before : ℕ → ℕ) where
  open n use {Num}

  abbrev S : Type 0
  S = Server adb udb Num

  -- The state that the hosts service shares with the gateway.
  abbrev pub hosts_state : S → HostsState adb Num
  hosts_state s = record {
    agents = s.agents;
    inventory = s.gateway.inventory;
    host_metrics = s.gateway.host_metrics;
  }

  abbrev pub with_hosts : HostsState adb Num → S → S
  with_hosts h s = record s {
    agents = h.agents;
    gateway = record s.gateway { inventory = h.inventory; host_metrics = h.host_metrics };
  }

  -- AuthController.login
  abbrev pub on_login : Option Credentials → S → S × Response (Reply Num)
  on_login none s = (s, thrown v.refusal)
  on_login (some c) s = (s, replied token (Auth.login udb pw jwt c.email c.password s.users))

  -- SetupController.createAdmin, with no other call between the queries of the setup.
  abbrev pub on_create_admin : Option Credentials → (salt : String) → S → S × Response (Reply Num)
  on_create_admin none salt s = (s, thrown v.refusal)
  on_create_admin (some c) salt s =
      let (users, answer) =
        create_first_admin udb pw c.email c.password salt s.users s.users s.users in
      (record s { users = users }, replied user answer)

  -- AuthController.me
  abbrev pub on_me : Option AuthenticatedUser → S → Response (Reply Num)
  on_me none s = thrown (internal "Internal server error")
  on_me (some u) s = replied user (get_profile udb pw jwt u.id s.users)

  -- HealthController.check; the body of the exception says that the database is down.
  abbrev pub on_health : Bool → Response (Reply Num)
  on_health true = ok healthy
  on_health false = thrown (service_unavailable "down")

  -- HostsController.updateDisplayName
  abbrev pub on_rename : Option String → String → (now : ℕ) → S → S × Response (Reply Num)
  on_rename none id now s = (s, thrown v.refusal)
  on_rename (some name) id now s =
      let (h, answer) = Hosts.rename_host adb id name now (hosts_state s) in
      (with_hosts h s, replied host answer)

  -- HostsController.deleteHost
  abbrev pub on_delete : String → (now : ℕ) → S → S × Response (Reply Num)
  on_delete id now s =
      let (agents, answer) = Hosts.delete_host adb week_before id now s.agents in
      (record s { agents = agents }, replied (λ u. done) answer)

  -- runAction of ContainersController, up to the promise.
  abbrev pub run_action :
      String → String → ContainerAction → Bool → String → S → S × Response (Reply Num)
  run_action id host_id a force request_id s =
      let found = find_by_id adb host_id s.agents in
      let (g, answer) =
        Containers.run_lifecycle_action found host_id id a force request_id s.gateway in
      (record s { gateway = g }, answered command answer)

  abbrev pub on_remove : Option ContainerRemoveBody → String → String → S → S × Response (Reply Num)
  on_remove none id request_id s = (s, thrown v.refusal)
  on_remove (some b) id request_id s = run_action id b.host_id remove b.force request_id s

  abbrev pub on_action :
      Option String → ContainerAction → String → String → S → S × Response (Reply Num)
  on_action none a id request_id s = (s, thrown v.refusal)
  on_action (some host_id) a id request_id s = run_action id host_id a false request_id s

  -- The six endpoints of ContainersController that run an action.
  abbrev pub on_lifecycle :
      ContainerAction → Json Num → String → String → S → S × Response (Reply Num)
  on_lifecycle remove body id request_id s = on_remove (container_remove_dto v body) id request_id s
  on_lifecycle a body id request_id s = on_action (container_action_dto v body) a id request_id s

  -- ContainersController.inspect, up to the promise.
  abbrev pub on_inspect : String → String → String → S → S × Response (Reply Num)
  on_inspect id host_id request_id s =
      if is_blank host_id
      then (s, thrown (bad_request "hostId query parameter is required"))
      else let (g, answer) =
          Containers.inspect_container (find_by_id adb host_id s.agents) host_id id request_id
            s.gateway in
        (record s { gateway = g }, answered inspection answer)

  -- ContainersController.streamLogs
  abbrev pub on_stream :
      String → String → Option String → Option String → Context Num → S → S × Response (Reply Num)
  on_stream id host_id tail follow c s =
      let parsed = c.parse_int (or_else tail "100") in
      let (g, answer) =
        Containers.stream_logs n (find_by_id adb host_id s.agents) host_id id parsed
          (c.is_positive parsed) follow c.on_chunk c.request_id s.gateway in
      (record s { gateway = g }, replied stream answer)

  -- The handler of a route, for a request that the guards let through.
  unfoldable pub handle : Call Num → Context Num → RequestWithUser → S → S × Response (Reply Num)
  handle (login body) c r s = on_login (login_dto v body) s
  handle (create_admin body) c r s = on_create_admin (create_admin_dto v body) c.salt s
  handle me c r s = (s, on_me r.user s)
  handle setup_status c r s = (s, ok (setup (setup_required udb pw s.users)))
  handle health c r s = (s, on_health c.database_up)
  handle list_hosts c r s =
      let (h, dtos) = Hosts.list_hosts adb (hosts_state s) in (with_hosts h s, ok (hosts dtos))
  handle (update_display_name id body) c r s = on_rename (update_host_dto v body) id c.now s
  handle (get_metrics id) c r s =
      let (h, answer) = Hosts.get_metrics adb id (hosts_state s) in
      (with_hosts h s, replied metrics answer)
  handle (list_containers id) c r s =
      let (h, answer) = Hosts.list_containers adb id (hosts_state s) in
      (with_hosts h s, replied containers answer)
  handle (delete_host id) c r s = on_delete id c.now s
  handle (inspect id host_id) c r s = on_inspect id host_id c.request_id s
  handle (action a id body) c r s = on_lifecycle a body id c.request_id s
  handle (stream_logs id host_id tail follow) c r s = on_stream id host_id tail follow c s

  abbrev pub permitted :
      Response Unit → Call Num → Context Num → RequestWithUser → S → S × Response (Reply Num)
  permitted (thrown e) call c r s = (s, thrown e)
  permitted (ok u) call c r s = handle call c r s

  abbrev pub admitted :
      Response RequestWithUser → Call Num → Context Num → S → S × Response (Reply Num)
  admitted (thrown e) call c s = (s, thrown e)
  admitted (ok r) call c s = permitted (authorize true (required_roles call) r) call c r s

  -- One HTTP request: JwtAuthGuard, RolesGuard, the ValidationPipe and the handler.
  unfoldable pub serve : Call Num → Context Num → RequestWithUser → S → S × Response (Reply Num)
  serve call c r s = admitted (authenticate pw jwt true (is_public call) r) call c s
