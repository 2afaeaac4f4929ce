-- ===== src/Server/Rename.antt =====
-- A host that is renamed over HTTP: the body, the checks of its DTO, the row and the answer.
use docksight.Base.{
  ℕ, String, true, false, ◌≡◌, refl, ◌≢◌, ◌≤◌, [], ◌∷◌, none, some, Bool-cases, inl, inr, arith,
  eq_iff, ◌==◌, if◌then◌else◌, ltb,
}
use docksight.Json.{Numbers, Json, str, obj, end, field}
use docksight.Text.{trim, units}
use docksight.Text.Trim.{trim-trim}
use docksight.Agents
use docksight.Agents.{Agent, AgentTable, by_id, find_by_id, no_data}
use docksight.Users.{admin, UserTable, Passwords}
use docksight.Auth.{JwtService, RequestWithUser, authenticate, authorize}
use docksight.Hosts.{HostsState, HostDto, to_host_dto, rename_host}
use docksight.Http.{ok}
use docksight.Server.{
  Call, update_display_name, Reply, host, Context, Server, is_public, required_roles, handle, serve,
}
use docksight.Server.Dto.{Validators, update_host_dto}
use docksight.Web.HostName.{validate_host_display_name}

-- The body that the web client sends.
abbrev pub rename_body : {Num : Type 0} → String → Json Num
rename_body name = obj (field "displayName" (str name) end)

-- What the client's own check accepts is not empty and short once it is trimmed.
pub accepted_name :
    (name : String)
    → validate_host_display_name name ≡ none
    → (trim name ≢ "") × (units (trim name) ≤ 64)
unfolding validate_host_display_name
accepted_name name e = elim (Bool-cases (trim name == "")) [
  | inl blank ↦ absurd (ground (arith, e, blank))
  | inr full ↦ elim (Bool-cases (ltb 64 (units (trim name)))) [
    | inl long ↦ absurd (ground (arith, e, full, long))
    | inr short ↦ (ground (arith, eq_iff (trim name) "", full), ground (arith, short))
  ]
]

-- A display name that the client accepts passes the server's DTO as well, which trims it again and so
-- takes it as it is.
pub update_host_dto-accepted :
    {Num : Type 0}
    → (v : Validators Num) (name : String) → validate_host_display_name name ≡ none
    → update_host_dto v (rename_body (trim name)) ≡ some (trim name)
unfolding update_host_dto
update_host_dto-accepted v name e =
    let (full, short) = accepted_name name e in
    rw (trim-trim name) (
      rw
        (
          v.is_string_text (trim name),
          v.is_not_empty_text (trim name) full,
          v.max_length_text 64 (trim name) short,
        )
        refl)

module _ (db : AgentTable) {Num : Type 0} where
  -- The row of a known host gets the new label, and the answer has it as the host's name.
  pub rename_host_known :
      (id name : String) (now : ℕ) (s : HostsState db Num) (a : Agent)
      → find_by_id db id s.agents ≡ some a
      → trim name ≡ name
      → (name == "") ≡ false
      → let b = record a { display_name = some name; updated_at = now } in
        let (t, answer) = rename_host db id name now s in
        (dto : HostDto Num) × ((answer ≡ ok dto)
          × ((dto.display_name ≡ name)
              × ((dto.id ≡ a.id)
                  × ((i : String)
                      → find_by_id db i t.agents
                        ≡ (if a.id == i then some b else find_by_id db i s.agents)))))
  unfolding rename_host Agents.update_display_name find_by_id to_host_dto
  rename_host_known id name now s a e same full =
      let d = record no_data { display_name = some name } in
      let (u, updated, found) = db.update_found (by_id id) d now s.agents e in
      rw (e, updated) (_, (refl, (rw same (rw full refl), (refl, λ i. found (by_id i)))))

module _ (adb : AgentTable) (udb : UserTable) (pw : Passwords) (jwt : JwtService) (n : Numbers)
    (v : Validators n.Num) (week_before : ℕ → ℕ) where
  open n use {Num}

  -- A display name that the client accepts is stored for a known host and answered as its name, for a
  -- request that both guards let through; every other host's row is as it was.
  pub serve-rename :
      (id name : String) (c : Context Num) (r q : RequestWithUser) (s : Server adb udb Num)
      (a : Agent)
      → authenticate pw jwt true false r ≡ ok q
      → authorize true (admin ∷ []) q ≡ ok tt
      → validate_host_display_name name ≡ none
      → find_by_id adb id s.agents ≡ some a
      → let b = record a { display_name = some (trim name); updated_at = c.now } in
        let (t, answer) =
          serve adb udb pw jwt n v week_before
            (update_display_name id (rename_body (trim name)))
            c
            r
            s in
        (dto : HostDto Num) × ((answer ≡ ok (host dto))
          × ((dto.display_name ≡ trim name)
              × ((dto.id ≡ a.id)
                  × ((i : String)
                      → find_by_id adb i t.agents
                        ≡ (if a.id == i then some b else find_by_id adb i s.agents)))))
  unfolding serve handle is_public required_roles
  serve-rename id name c r q s a let_in allowed valid e =
      let (full, _) = accepted_name name valid in
      let (dto, (answered, (named, (same, found)))) =
        rename_host_known adb id (trim name) c.now
          (docksight.Server.hosts_state adb udb pw jwt n v week_before s) a e (trim-trim name)
          (ground (arith, eq_iff (trim name) "", full)) in
      rw (let_in, allowed, update_host_dto-accepted v name valid, answered)
        (dto, (refl, (named, (same, found))))
