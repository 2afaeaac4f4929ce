-- ===== src/Tests/Samples.antt =====
-- Numbers, messages and gateways that the runs start from.
use docksight.Base.{ℕ, true, false, List, [], ◌∷◌, Option, none, some, eqb, if◌then◌else◌}
use docksight.Dict.{empty, set}
use docksight.Json.{Numbers, Json, Fields, bool, str, obj, end, field}
use docksight.Protocol.Container.{ContainerPort, ContainerSummary, container_result, restart}
use docksight.Protocol.Messages.{AgentRegistered}
use docksight.Gateway.State.{
  Gateway, AgentSocket, PendingCommand, LogSubscriber, opened, put_socket, new_gateway,
  command_timeout, list_timeout,
}
use docksight.Gateway.Messages.{Runtime}

-- The numbers that JSON can write without a sign, a point or an exponent.
abbrev pub numbers : Numbers
numbers = record {
  Num = ℕ;
  of_ℕ = λ x. x;
  is_finite = λ x. true;
  is_zero = λ x. eqb x 0;
  is_nan = λ x. false;
  to_text = λ x. if eqb x 8080 then "8080" else "5432";
}

abbrev pub restarted : Fields ℕ
restarted =
    field "requestId" (str "r1")
      (field "action" (str "restart") (field "containerId" (str "c1") (field "ok" (bool true) end)))

-- A first byte stands for the message that `restarted` is the payload of.
abbrev read_bytes : List ℕ → Option (Json ℕ)
read_bytes [] = none
read_bytes (b ∷ bs) =
    some (obj (field "type" (str container_result) (field "payload" (obj restarted) end)))

abbrev pub runtime : Runtime numbers
runtime = record { parse_json = read_bytes; parse_date = λ v. none }

abbrev pub web_port : ContainerPort ℕ
web_port = record { private = 80; public = "8080"; protocol = "tcp"; ip = some "0.0.0.0" }

abbrev pub web : ContainerSummary ℕ
web = record {
  id = "c1";
  name = "web";
  image = "nginx";
  status = "Up 2 hours";
  state = "running";
  ports = web_port ∷ [];
  created = 1700000000;
}

abbrev pub registration : AgentRegistered
registration = record {
  id = "h1";
  uuid = "u1";
  status = "ONLINE";
  message = "Registration successful";
}

abbrev pub known_socket : AgentSocket
known_socket = record { agent_uuid = some "u1"; agent_id = some "h1"; ready_state = opened }

abbrev pub restart_request : PendingCommand
restart_request = record { agent_uuid = "u1"; ticket = 0 }

abbrev pub tail_request : LogSubscriber
tail_request = record { agent_uuid = "u1"; container_id = "c1"; on_chunk = 7 }

-- The agent u1 is on socket 2, and has a command, a list request and a log stream to answer; its
-- older socket 1 has not closed yet.
abbrev pub busy : Gateway ℕ
busy = record (new_gateway {Num = ℕ}) {
  sockets = put_socket 2 known_socket (put_socket 1 known_socket (new_gateway {Num = ℕ}).sockets);
  sockets_by_uuid = set "u1" 2 empty;
  pending_lists = set "u1" (record { ticket = 1 }) empty;
  pending_commands = set "r1" restart_request empty;
  log_subscribers = set "r2" tail_request empty;
  timers = (1, list_timeout "u1" "h1") ∷ (0, command_timeout "r1" restart) ∷ [];
  next_ticket = 2;
}
