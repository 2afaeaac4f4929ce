-- ===== src/Agents/Laws.antt =====
-- What the table holds after each call of the service.
use docksight.Base.{ℕ, String, true, ◌≡◌, refl, none, some, arith, ◌==◌, eq_iff, if◌then◌else◌}
use docksight.Protocol.Messages.{online, offline, AgentRegistered}
use docksight.Agents.{
  Agent, AgentTable, by_id, by_uuid, apply, created, no_data, Registration, registration_data,
  register, heartbeat, mark_offline, find_by_id, find_by_uuid, update_display_name,
}

module _ (db : AgentTable) where
  open db use {Table, find_unique}

  -- The answer to a registration, for the row that it left.
  abbrev pub answer_for : Agent → AgentRegistered
  answer_for a = record {
    id = a.id;
    uuid = a.uuid;
    status = "ONLINE";
    message = "Registration successful";
  }

  -- A known agent that registers again stays the same row: its id, its creation time and the
  -- operator's label stay, it is ONLINE and was just seen, the rest is what it said, and every other
  -- agent's row is as it was. It is answered with its id.
  pub register_known :
      (r : Registration) (new_id : String) (now : ℕ) (t : Table) (a : Agent)
      → find_by_uuid db r.uuid t ≡ some a
      → let b = record a {
        hostname = r.hostname;
        os = r.os;
        architecture = r.architecture;
        version = r.version;
        status = online;
        last_seen = some now;
        updated_at = now;
      } in
        let (s, answer) = register db r new_id now t in
        (answer ≡ some (answer_for b))
        × ((u : String)
            → find_by_uuid db u s ≡ (if a.uuid == u then some b else find_by_uuid db u t))
        × ((i : String) → find_by_id db i s ≡ (if a.id == i then some b else find_by_id db i t))
  unfolding register find_by_uuid find_by_id
  register_known r new_id now t a e =
      let w = by_uuid r.uuid in
      let d = registration_data db r now in
      let (s, same, found) = db.update_found w d now t e in
      rw (db.upsert_found w (created r.uuid new_id now) d now t e, same)
        (refl, λ u. found (by_uuid u), λ i. found (by_id i))

  -- A new agent gets a row of its own, with no label, and every other agent's row is as it was.
  pub register_new :
      (r : Registration) (new_id : String) (now : ℕ) (t : Table)
      → find_by_uuid db r.uuid t ≡ none
      → find_by_id db new_id t ≡ none
      → let b = apply (registration_data db r now) now (created r.uuid new_id now) in
        let (s, answer) = register db r new_id now t in
        (answer ≡ some (answer_for b))
        × (b.display_name ≡ none)
        × ((u : String)
            → find_by_uuid db u s ≡ (if r.uuid == u then some b else find_by_uuid db u t))
        × ((i : String) → find_by_id db i s ≡ (if new_id == i then some b else find_by_id db i t))
  unfolding register find_by_uuid find_by_id
  register_new r new_id now t e f =
      let d = registration_data db r now in
      let (s, same, found) = db.upsert_missing (created r.uuid new_id now) d now t e f in
      rw same (refl, refl, λ u. found (by_uuid u), λ i. found (by_id i))

  -- A heartbeat of an unknown agent leaves the table alone, and its answer is null.
  pub heartbeat-unknown :
      (uuid : String) (now : ℕ) (t : Table)
      → find_by_uuid db uuid t ≡ none
      → heartbeat db uuid now t ≡ (t, none)
  unfolding heartbeat find_by_uuid
  heartbeat-unknown uuid now t e = rw e refl

  -- After a heartbeat a known agent is ONLINE and was just seen, whatever it was before; nothing
  -- else of it changes, and no other agent's row.
  pub heartbeat_known :
      (uuid : String) (now : ℕ) (t : Table) (a : Agent)
      → find_by_uuid db uuid t ≡ some a
      → let b = record a { status = online; last_seen = some now; updated_at = now } in
        let (s, answer) = heartbeat db uuid now t in
        (answer ≡ some b)
        × ((u : String)
            → find_by_uuid db u s ≡ (if a.uuid == u then some b else find_by_uuid db u t))
  unfolding heartbeat find_by_uuid
  heartbeat_known uuid now t a e =
      let d = record no_data { status = some online; last_seen = some now } in
      let (s, same, found) = db.update_found (by_uuid uuid) d now t e in
      rw (e, same) (refl, λ u. found (by_uuid u))

  -- `markOffline` never fails: a known agent is OFFLINE afterwards and still has the time it was last
  -- seen at, and where the agent is unknown nothing changes.
  pub mark_offline_lem :
      (uuid : String) (now : ℕ) (t : Table)
      → (find_by_uuid db uuid t ≡ none → mark_offline db uuid now t ≡ t)
        × ((a : Agent)
            → find_by_uuid db uuid t ≡ some a
            → (u : String)
            → find_by_uuid db u (mark_offline db uuid now t) ≡ (
                if a.uuid == u
                then some (record a { status = offline; updated_at = now })
                else find_by_uuid db u t))
  unfolding mark_offline find_by_uuid
  mark_offline_lem uuid now t =
      let w = by_uuid uuid in
      let d = record no_data { status = some offline } in
      (
        λ e. rw (mark_offline, db.update_missing w d now t e) refl,
        λ a e u.
            let (s, same, found) = db.update_found w d now t e in
            rw (mark_offline, same) (found (by_uuid u)),
      )

  -- The label that the operator gives a host is still there after the host's agent has registered
  -- once more.
  pub display_name_survives :
      (id name : String) (r : Registration) (new_id : String) (now later : ℕ) (t : Table)
      (a : Agent)
      → find_by_id db id t ≡ some a
      → r.uuid ≡ a.uuid
      → let named = (update_display_name db id name now t).0 in
        let after = (register db r new_id later named).0 in
        (b : Agent) × ((find_by_id db id after ≡ some b) × (b.display_name ≡ some name))
  unfolding update_display_name find_by_id register
  display_name_survives id name r new_id now later t a e f =
      let d = record no_data { display_name = some name } in
      let (s, same, found) = db.update_found (by_id id) d now t e in
      let b = apply d now a in
      let w = by_uuid r.uuid in
      let rd = registration_data db r later in
      let key : (a.id == id) ≡ true = ground (arith, db.find_unique_lem (by_id id) t) in
      let known : find_unique w s ≡ some b = ground (arith, found w, eq_iff a.uuid r.uuid) in
      let (z, same_later, found_later) = db.update_found w rd later s known in
      rw (e, same, db.upsert_found w (created r.uuid new_id later) rd later s known, same_later)
        (apply rd later b, (ground (arith, found_later (by_id id), key), refl))
