-- ===== src/Agents.antt =====
-- apps/server/src/agents/agents.service.ts over the `agents` table of
-- apps/server/prisma/schema.prisma. A `Date` is its milliseconds; the clock is an argument.
pub mod Table
pub mod Laws
use docksight.Base.{ℕ, String, List, Option, none, some}
use docksight.Protocol.Messages.{AgentStatus, online, offline, AgentRegistered, status_text}
pub use Table.{
  Agent, AgentData, Unique, by_id, by_uuid, matches, apply, created, AgentTable, no_data,
}

-- The registration that the gateway passes on, with texts in its fields.
pub record Registration : Type 0 where
  pub uuid : String
  pub hostname : String
  pub os : String
  pub architecture : String
  pub version : String

module _ (db : AgentTable) where
  open db use {Table, find_unique, find_many, upsert, update, delete}

  -- `displayName` is the operator's: a registration leaves it alone.
  abbrev pub registration_data : Registration → ℕ → AgentData
  registration_data r now = record no_data {
    hostname = some r.hostname;
    os = some r.os;
    architecture = some r.architecture;
    version = some r.version;
    status = some online;
    last_seen = some now;
  }

  abbrev registered_answer : Option (Table × Agent) → Table → Table × Option AgentRegistered
  registered_answer none t = (t, none)
  registered_answer (some (t, a)) old = (
    t,
    some (record {
      id = a.id;
      uuid = a.uuid;
      status = status_text a.status;
      message = "Registration successful";
    }),
  )

  -- `register`; `none` is an exception of the database.
  unfoldable pub register :
      Registration → (new_id : String) → (now : ℕ) → Table → Table × Option AgentRegistered
  register r new_id now t =
      registered_answer
        (upsert (by_uuid r.uuid) (created r.uuid new_id now) (registration_data r now) now t) t

  -- The table after a query that changes it, with the row that it answers; an exception of the
  -- database leaves the table and answers `none` as well.
  abbrev updated : Option (Table × Agent) → Table → Table × Option Agent
  updated none t = (t, none)
  updated (some (t, a)) old = (t, some a)

  abbrev update_if : Option Agent → Unique → AgentData → ℕ → Table → Table × Option Agent
  update_if none w d now t = (t, none)
  update_if (some existing) w d now t = updated (update w d now t) t

  -- An agent that is not in the table is only logged.
  unfoldable pub heartbeat : String → (now : ℕ) → Table → Table × Option Agent
  heartbeat uuid now t =
      update_if (find_unique (by_uuid uuid) t) (by_uuid uuid)
        (record no_data { status = some online; last_seen = some now }) now t

  -- The exception of a missing row is caught.
  unfoldable pub mark_offline : String → (now : ℕ) → Table → Table
  mark_offline uuid now t =
      (updated (update (by_uuid uuid) (record no_data { status = some offline }) now t) t).0

  unfoldable pub find_by_uuid : String → Table → Option Agent
  find_by_uuid uuid t = find_unique (by_uuid uuid) t

  unfoldable pub find_by_id : String → Table → Option Agent
  find_by_id id t = find_unique (by_id id) t

  unfoldable pub find_all : Table → List Agent
  find_all t = find_many t

  unfoldable pub update_display_name :
      String → (display_name : String) → (now : ℕ) → Table → Table × Option Agent
  unfolding find_by_id
  update_display_name id display_name now t =
      update_if (find_by_id id t) (by_id id) (record no_data { display_name = some display_name })
        now t

  -- `none` is the database's exception when there is no such row.
  unfoldable pub delete_agent : String → Table → Option Table
  delete_agent id t = delete (by_id id) t
