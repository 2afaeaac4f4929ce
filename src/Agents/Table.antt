-- ===== src/Agents/Table.antt =====
-- Prisma's client for the `agents` table: its rows, and the calls that the server makes with what
-- Prisma documents of them. The client is generated and not part of the repository.
use docksight.Base.{
  ℕ, String, Bool, true, ◌≡◌, List, Option, none, some, ◌==◌, or_else, if◌then◌else◌, AllSome,
}
use docksight.Protocol.Messages.{AgentStatus, unknown}

-- model Agent
pub record Agent : Type 0 where
  pub id : String
  pub uuid : String
  pub hostname : String
  pub display_name : Option String
  pub os : String
  pub architecture : String
  pub version : String
  pub status : AgentStatus
  pub last_seen : Option ℕ
  pub created_at : ℕ
  pub updated_at : ℕ

-- The `where` of a query: a column with a unique index.
pub data Unique : Type 0 where
  by_id by_uuid : String → Unique

abbrev pub matches : Unique → Agent → Bool
matches (by_id i) a = a.id == i
matches (by_uuid u) a = a.uuid == u

-- The `data` of an update: a field that is left out stays.
pub record AgentData : Type 0 where
  pub hostname : Option String
  pub display_name : Option String
  pub os : Option String
  pub architecture : Option String
  pub version : Option String
  pub status : Option AgentStatus
  pub last_seen : Option ℕ

abbrev pub no_data : AgentData
no_data = record {
  hostname = none;
  display_name = none;
  os = none;
  architecture = none;
  version = none;
  status = none;
  last_seen = none;
}

abbrev or_kept : Option String → Option String → Option String
or_kept none kept = kept
or_kept (some new) kept = some new

abbrev or_kept_time : Option ℕ → Option ℕ → Option ℕ
or_kept_time none kept = kept
or_kept_time (some new) kept = some new

-- The row after an update with this data, where `updatedAt` is set by Prisma.
abbrev pub apply : AgentData → (now : ℕ) → Agent → Agent
apply d now a = record a {
  hostname = or_else d.hostname a.hostname;
  display_name = or_kept d.display_name a.display_name;
  os = or_else d.os a.os;
  architecture = or_else d.architecture a.architecture;
  version = or_else d.version a.version;
  status = or_else d.status a.status;
  last_seen = or_kept_time d.last_seen a.last_seen;
  updated_at = now;
}

-- A new row with the schema's defaults, before the data of the `create`.
abbrev pub created : (uuid new_id : String) → (now : ℕ) → Agent
created uuid new_id now = record {
  id = new_id;
  uuid = uuid;
  hostname = "";
  display_name = none;
  os = "";
  architecture = "";
  version = "";
  status = unknown;
  last_seen = none;
  created_at = now;
  updated_at = now;
}

-- `none` is an exception. An upsert is given the new row without its data, and data that is the
-- same for both of its cases.
pub record AgentTable : Type 1 where
  pub Table : Type 0
  pub find_unique : Unique → Table → Option Agent
  pub find_many : Table → List Agent
  pub upsert : Unique → (row : Agent) → AgentData → (now : ℕ) → Table → Option (Table × Agent)
  pub update : Unique → AgentData → (now : ℕ) → Table → Option (Table × Agent)
  pub delete : Unique → Table → Option Table
  -- what is found has the key
  pub find_unique_lem :
      (w : Unique) (t : Table) → AllSome (λ a. matches w a ≡ true) (find_unique w t)
  -- an update changes the row that it finds, and no other
  pub update_found :
      (w : Unique) (d : AgentData) (now : ℕ) (t : Table) {a : Agent}
      → find_unique w t ≡ some a
      → (s : Table) × (update w d now t ≡ some (s, apply d now a))
        × ((v : Unique)
            → find_unique v s ≡ (if matches v a then some (apply d now a) else find_unique v t))
  pub update_missing :
      (w : Unique) (d : AgentData) (now : ℕ) (t : Table)
      → find_unique w t ≡ none
      → update w d now t ≡ none
  -- an upsert updates the row that it finds, or else adds a row whose keys are free
  pub upsert_found :
      (w : Unique) (row : Agent) (d : AgentData) (now : ℕ) (t : Table) {a : Agent}
      → find_unique w t ≡ some a
      → upsert w row d now t ≡ update w d now t
  pub upsert_missing :
      (row : Agent) (d : AgentData) (now : ℕ) (t : Table)
      → find_unique (by_uuid row.uuid) t ≡ none
      → find_unique (by_id row.id) t ≡ none
      → (s : Table) × (upsert (by_uuid row.uuid) row d now t ≡ some (s, apply d now row))
        × ((v : Unique)
            → find_unique v s ≡ (if matches v row then some (apply d now row) else find_unique v t))
  -- a delete takes out the row that it finds, and no other
  pub delete_found :
      (w : Unique) (t : Table) {a : Agent}
      → find_unique w t ≡ some a
      → (s : Table) × (delete w t ≡ some s)
        × ((v : Unique) → find_unique v s ≡ (if matches v a then none else find_unique v t))
  pub delete_missing : (w : Unique) (t : Table) → find_unique w t ≡ none → delete w t ≡ none
