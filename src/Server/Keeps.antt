-- ===== src/Server/Keeps.antt =====
-- What the routes that any user may call leave as it is.
use docksight.Base.{
  ℕ, String, Bool, false, ◌≡◌, refl, ◌||◌, ◌==◌, List, [], ◌∷◌, Option, if◌then◌else◌, Bool-cases,
  Option-cases, inl, inr,
}
use docksight.Json.{Numbers}
use docksight.Text.{is_blank}
use docksight.Protocol.Envelope.{Envelope}
use docksight.Protocol.Container.{start, stop, restart, remove, pause, unpause, command_type}
use docksight.Gateway.State.{Gateway, Effect, sent, is_open, send, client_of}
use docksight.Gateway.Calls
use docksight.Gateway.Calls.{LogStreamOptions, remember}
use docksight.Agents.{Agent, AgentTable, find_by_id}
use docksight.Hosts
use docksight.Hosts.{HostsState}
use docksight.Containers
use docksight.Containers.{Target, refused, agent, target, stream_logs, start_log_stream}

-- Whether a message tells an agent to act on a container.
unfoldable pub is_command_type : String → Bool
is_command_type type =
    type == command_type start
    || type == command_type stop
    || type == command_type restart
    || type == command_type remove
    || type == command_type pause
    || type == command_type unpause

module _ {Num : Type 0} where
  abbrev pub is_command : Effect Num → Bool
  is_command (sent client e) = is_command_type e.type
  is_command _ = false

  -- Of what the gateway did, the messages that tell an agent to act on a container.
  unfoldable pub commands_sent : List (Effect Num) → List (Effect Num)
  commands_sent [] = []
  commands_sent (e ∷ log) = let rest = commands_sent log in if is_command e then e ∷ rest else rest

  -- No command is sent, and none begins to wait or is forgotten.
  abbrev pub NoCommand : Gateway Num → Gateway Num → Type 0
  NoCommand g h =
      (h.pending_commands ≡ g.pending_commands) × (commands_sent h.log ≡ commands_sent g.log)

  send-NoCommand :
      (c : ℕ) (e : Envelope Num) (g : Gateway Num)
      → is_command_type e.type ≡ false
      → NoCommand g (send c e g)
  unfolding send commands_sent
  send-NoCommand c e g other = elim (Bool-cases (is_open c g)) [
    | inl o ↦ rw (o, other) (refl, refl)
    | inr o ↦ rw o (refl, refl)
  ]

  inspect_container-NoCommand :
      (u h c q : String) (g : Gateway Num) → NoCommand g (Calls.inspect_container u h c q g).0
  unfolding Calls.inspect_container is_command_type
  inspect_container-NoCommand u h c q g = elim (Option-cases (client_of u (remember h u g))) [
    | inl e ↦ rw e (refl, refl)
    | inr (client, e) ↦ rw e (send-NoCommand client _ _ refl)
  ]

  inspect_on-NoCommand :
      (t : Target) (c q : String) (g : Gateway Num) → NoCommand g (Containers.inspect_on t c q g).0
  inspect_on-NoCommand (refused error) c q g = (refl, refl)
  inspect_on-NoCommand (agent a) c q g = inspect_container-NoCommand a.uuid a.id c q g

module _ (n : Numbers) where
  open n use {Num}

  start_log_stream-NoCommand :
      (o : LogStreamOptions Num) (q : String) (g : Gateway Num)
      → NoCommand g (Calls.start_log_stream n o q g).0
  unfolding Calls.start_log_stream is_command_type
  start_log_stream-NoCommand o q g =
      elim (Option-cases (client_of o.agent_uuid (remember o.host_id o.agent_uuid g))) [
        | inl e ↦ rw e (refl, refl)
        | inr (client, e) ↦ rw e (send-NoCommand client _ _ refl)
      ]

  start_on-NoCommand :
      (t : Target) (c : String) (tail : Num) (follow : Bool) (f : ℕ) (q : String) (g : Gateway Num)
      → NoCommand g (Containers.start_on n t c tail follow f q g).0
  start_on-NoCommand (refused error) c tail follow f q g = (refl, refl)
  start_on-NoCommand (agent a) c tail follow f q g = start_log_stream-NoCommand _ q g

  -- Opening a log stream sends no command.
  pub stream_logs-NoCommand :
      (found : Option Agent) (h c : String) (parsed : Num) (positive : Bool) (raw : Option String)
      (f : ℕ) (q : String) (g : Gateway Num)
      → NoCommand g (stream_logs n found h c parsed positive raw f q g).0
  unfolding stream_logs start_log_stream
  stream_logs-NoCommand found h c parsed positive raw f q g = elim (Bool-cases (is_blank h)) [
    | inl e ↦ rw e (refl, refl)
    | inr e ↦ rw e (start_on-NoCommand (target found h c) c _ _ f q g)
  ]

module _ {Num : Type 0} where
  -- Asking for an inspection sends no command.
  pub inspect-NoCommand :
      (found : Option Agent) (h c q : String) (g : Gateway Num)
      → NoCommand g (Containers.inspect_container found h c q g).0
  unfolding Containers.inspect_container
  inspect-NoCommand found h c q g = inspect_on-NoCommand (target found h c) c q g

module _ (db : AgentTable) {Num : Type 0} where
  -- The three pages of hosts leave the table of agents as it is.
  pub list_hosts-agents : (s : HostsState db Num) → (Hosts.list_hosts db s).0.agents ≡ s.agents
  unfolding Hosts.list_hosts
  list_hosts-agents s = refl

  pub get_metrics-agents :
      (id : String) (s : HostsState db Num) → (Hosts.get_metrics db id s).0.agents ≡ s.agents
  unfolding Hosts.get_metrics
  get_metrics-agents id s = elim (Option-cases (find_by_id db id s.agents)) [
    | inl e ↦ rw e refl
    | inr (a, e) ↦ rw e refl
  ]

  pub list_containers-agents :
      (id : String) (s : HostsState db Num) → (Hosts.list_containers db id s).0.agents ≡ s.agents
  unfolding Hosts.list_containers
  list_containers-agents id s = elim (Option-cases (find_by_id db id s.agents)) [
    | inl e ↦ rw e refl
    | inr (a, e) ↦ rw e refl
  ]
