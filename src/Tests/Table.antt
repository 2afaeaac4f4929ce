-- ===== src/Tests/Table.antt =====
-- A table of agents as a function from keys to rows, and one host in it.
use docksight.Base.{ℕ, true, ◌≡◌, refl, [], Option, none, some, if◌then◌else◌, AllSome, arith}
use docksight.Protocol.Messages.{offline}
use docksight.Agents.{
  Agent, AgentData, Unique, by_id, by_uuid, matches, apply, AgentTable, Registration,
}

pub record Rows : Type 0 where
  pub find : Unique → Option Agent
  pub sound : (w : Unique) → AllSome (λ a. matches w a ≡ true) (find w)

-- The rows with what the key of `a` finds replaced by `b`.
abbrev replaced : Agent → Option Agent → Rows → Unique → Option Agent
replaced a b t v = if matches v a then b else t.find v

pub replaced_sound :
    (a b : Agent) (t : Rows)
    → a.id ≡ b.id
    → a.uuid ≡ b.uuid
    → (w : Unique) → AllSome (λ r. matches w r ≡ true) (replaced a (some b) t w)
replaced_sound a b t p q (by_id i) = ground (arith, t.sound (by_id i))
replaced_sound a b t p q (by_uuid u) = ground (arith, t.sound (by_uuid u))

pub removed_sound :
    (a : Agent) (t : Rows) (w : Unique) → AllSome (λ r. matches w r ≡ true) (replaced a none t w)
removed_sound a t w = ground (arith, t.sound w)

abbrev put : Agent → AgentData → ℕ → Rows → Rows
put a d now t = record {
  find = replaced a (some (apply d now a)) t;
  sound = replaced_sound a (apply d now a) t refl refl;
}

abbrev update_row : Option Agent → AgentData → ℕ → Rows → Option (Rows × Agent)
update_row none d now t = none
update_row (some a) d now t = some (put a d now t, apply d now a)

abbrev upsert_row : Option Agent → Agent → AgentData → ℕ → Rows → Option (Rows × Agent)
upsert_row none row d now t = some (put row d now t, apply d now row)
upsert_row (some a) row d now t = some (put a d now t, apply d now a)

abbrev delete_row : Option Agent → Rows → Option Rows
delete_row none t = none
delete_row (some a) t = some (record { find = replaced a none t; sound = removed_sound a t })

abbrev pub table : AgentTable
table = record {
  Table = Rows;
  find_unique = λ w t. t.find w;
  find_many = λ t. [];
  upsert = λ w row d now t. upsert_row (t.find w) row d now t;
  update = λ w d now t. update_row (t.find w) d now t;
  delete = λ w t. delete_row (t.find w) t;
  find_unique_lem = λ w t. t.sound w;
  update_found = λ w d now t {a} e. (put a d now t, rw e refl, λ v. refl);
  update_missing = λ w d now t e. rw e refl;
  upsert_found = λ w row d now t e. rw e refl;
  upsert_missing = λ row d now t e f. (put row d now t, rw e refl, λ v. refl);
  delete_found = λ w t {a} e.
      (record { find = replaced a none t; sound = removed_sound a t }, rw e refl, λ v. refl);
  delete_missing = λ w t e. rw e refl;
}

abbrev pub row : Agent
row = record {
  id = "h1";
  uuid = "u1";
  hostname = "alpha";
  display_name = none;
  os = "linux";
  architecture = "x86_64";
  version = "1.0.0";
  status = offline;
  last_seen = some 1000;
  created_at = 500;
  updated_at = 1000;
}

abbrev pub no_rows : Rows
no_rows = record { find = λ w. none; sound = λ w. tt }

abbrev pub rows : Rows
rows = record {
  find = replaced row (some row) no_rows;
  sound = replaced_sound row row no_rows refl refl;
}

abbrev pub returning : Registration
returning = record {
  uuid = "u1";
  hostname = "beta";
  os = "linux";
  architecture = "x86_64";
  version = "1.1.0";
}
