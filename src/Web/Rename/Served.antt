-- ===== src/Web/Rename/Served.antt =====
-- The new name of a host, from the form to the lists.
use docksight.Base.{
  String, true, false, ◌≡◌, refl, [], ◌∷◌, List, none, some, ◌==◌, if◌then◌else◌, Bool-cases, inl,
  inr, arith, eq_iff, map, eq_refl, subst, sym, ◌∙◌, ◌≢◌, ℕ,
}
use docksight.Json.{Numbers}
use docksight.Text.{trim}
use docksight.Text.Trim.{trim-trim}
use docksight.Agents.{Agent, AgentTable, find_by_id}
use docksight.Users.{admin, UserTable, Passwords}
use docksight.Auth.{JwtService, RequestWithUser, authenticate, authorize}
use docksight.Hosts.{HostDto}
use docksight.Http.{ok}
use docksight.Server.{update_display_name, host, Context, Server, serve}
use docksight.Server.Dto.{Validators}
use docksight.Server.Rename.{rename_body, serve-rename, accepted_name}
use docksight.Web.HostName.{host_display_name, validate_host_display_name}
use docksight.Web.HostName.Shown.{received_host}
use docksight.Web.Rename.{
  RenameDialog, RenameRequest, on_change, on_submit, on_answered, on_dismiss, rename_error,
  set_renamed, find_host,
}

module _ {Num : Type 0} where
  abbrev renamed_list : HostDto Num → List (HostDto Num) → List (HostDto Num)
  renamed_list u hosts = map (λ h. if h.id == u.id then u else h) hosts

  find_host-other :
      (u : HostDto Num) (hosts : List (HostDto Num)) (i : String)
      → (u.id == i) ≡ false
      → find_host i (renamed_list u hosts) ≡ find_host i hosts
  unfolding find_host
  find_host-other u [] i e = refl
  find_host-other u (h ∷ hosts) i e = elim (Bool-cases (h.id == u.id)) [
    | inl same ↦
        let other : (h.id == i) ≡ false =
          subst (λ k. (k == i) ≡ false) (sym ((eq_iff h.id u.id).0 same)) e in
        rw (same, e, other) (find_host-other u hosts i e)
    | inr differs ↦ rw differs (rw (find_host-other u hosts i e) refl)
  ]

  find_host-renamed :
      (u : HostDto Num) (hosts : List (HostDto Num)) (h : HostDto Num)
      → find_host u.id hosts ≡ some h
      → find_host u.id (renamed_list u hosts) ≡ some u
  unfolding find_host
  find_host-renamed u [] h e = ground (arith, e)
  find_host-renamed u (k ∷ hosts) h e = elim (Bool-cases (k.id == u.id)) [
    | inl same ↦ rw (same, eq_refl u.id) refl
    | inr differs ↦ rw (differs, differs) (find_host-renamed u hosts h (ground (arith, e, differs)))
  ]

  -- After a rename was answered, the cached list has the answer in the place of the host with its
  -- id, and every other host as it was.
  pub set_renamed_lem :
      (u : HostDto Num) (hosts : List (HostDto Num))
      → let after = renamed_list u hosts in
        (set_renamed u (some hosts) ≡ some after)
        × ((h : HostDto Num) → find_host u.id hosts ≡ some h → find_host u.id after ≡ some u)
        × ((i : String) → i ≢ u.id → find_host i after ≡ find_host i hosts)
  unfolding set_renamed
  set_renamed_lem u hosts = (
    refl,
    find_host-renamed u hosts,
    λ i ne. find_host-other u hosts i (ground (arith, eq_iff u.id i, ne)),
  )

-- While no call is under way, typing clears the error that the form shows, and what is sent next is
-- the text that was typed, trimmed, if it passes the check.
pub on_change_lem :
    (d : RenameDialog) (text : String)
    → d.is_pending ≡ false
    → let e = on_change text d in
      (rename_error e ≡ none)
      × (e.is_open ≡ d.is_open)
      × (validate_host_display_name text ≡ none
          → (on_submit e).1 ≡ some (record { host_id = d.host_id; display_name = trim text }))
unfolding on_change on_submit rename_error
on_change_lem d text idle = rw idle (refl, refl, λ valid. rw valid refl)

-- A form whose text fails the check stays open with the refusal and sends nothing; while a call is
-- under way neither Escape nor a click beside the form closes it; an error of the server leaves it
-- open with the message, and success closes it.
pub on_submit_lem :
    (d : RenameDialog)
    → ((m : String)
        → validate_host_display_name d.value ≡ some m
        → ((on_submit d).1 ≡ none)
          × (rename_error (on_submit d).0 ≡ some m)
          × ((on_submit d).0.is_open ≡ d.is_open))
      × (validate_host_display_name d.value ≡ none
          → let sent = (on_submit d).0 in
            (on_dismiss sent ≡ sent)
            × (rename_error sent ≡ none)
            × ((on_answered none sent).is_open ≡ false)
            × ((m : String)
                → (rename_error (on_answered (some m) sent) ≡ some m)
                  × ((on_answered (some m) sent).is_open ≡ d.is_open)))
unfolding on_submit on_dismiss on_answered rename_error
on_submit_lem d = (λ m e. rw e (refl, refl, refl), λ e. rw e (refl, refl, refl, λ m. (refl, refl)))

shown_trimmed :
    (hostname name : String)
    → trim name ≡ name
    → (name == "") ≡ false
    → host_display_name (record { hostname = hostname; display_name = some name }) ≡ name
unfolding host_display_name
shown_trimmed hostname name e full = rw (e, full) refl

module _ (adb : AgentTable) (udb : UserTable) (pw : Passwords) (jwt : JwtService) (n : Numbers)
    (v : Validators n.Num) (week_before : ℕ → ℕ) where
  open n use {Num}

  -- What the form sends for a text that passes its check is accepted by the server, where an
  -- administrator sends it for a known host that is in the client's cached list: the client then shows the
  -- trimmed text as the name of that host and has every other host of the list as before, and the host's
  -- row has the text as its label.
  pub rename_end_to_end :
      (d : RenameDialog) (c : Context Num) (r q : RequestWithUser) (s : Server adb udb Num)
      (a : Agent) (hosts : List (HostDto Num)) (old : HostDto Num)
      → authenticate pw jwt true false r ≡ ok q
      → authorize true (admin ∷ []) q ≡ ok tt
      → validate_host_display_name d.value ≡ none
      → find_by_id adb d.host_id s.agents ≡ some a
      → find_host a.id hosts ≡ some old
      → (request : RenameRequest) × ((dto : HostDto Num) × ((after : List (HostDto Num)) × (let (
        t, answer,
      ) =
                serve adb udb pw jwt n v week_before
                  (update_display_name request.host_id (rename_body request.display_name))
                  c
                  r
                  s in
              ((on_submit d).1 ≡ some request)
              × (answer ≡ ok (host dto))
              × (set_renamed dto (some hosts) ≡ some after)
              × (find_host a.id after ≡ some dto)
              × (host_display_name (received_host dto) ≡ trim d.value)
              × ((i : String) → i ≢ a.id → find_host i after ≡ find_host i hosts)
              × (find_by_id adb a.id t.agents
                  ≡ some (record a { display_name = some (trim d.value); updated_at = c.now })))))
  unfolding on_submit
  rename_end_to_end d c r q s a hosts old let_in allowed valid known cached =
      let name = trim d.value in
      let (dto, (answered, (named, (same, found)))) =
        serve-rename adb udb pw jwt n v week_before d.host_id d.value c r q s a let_in allowed valid
          known in
      let (set, renamed, others) = set_renamed_lem dto hosts in
      let (full, _) = accepted_name d.value valid in
      let is_full : (name == "") ≡ false = ground (arith, eq_iff name "", full) in
      (
        record { host_id = d.host_id; display_name = name },
        (
          dto,
          (
            renamed_list dto hosts,
            (
              rw valid refl,
              answered,
              set,
              subst (λ k. find_host k (renamed_list dto hosts) ≡ some dto) same
                  (renamed old (subst (λ k. find_host k hosts ≡ some old) (sym same) cached)),
              subst
                  (λ m.
                    host_display_name (record { hostname = dto.hostname; display_name = some m })
                    ≡ name)
                  (sym named) (shown_trimmed dto.hostname name (trim-trim d.value) is_full),
              λ i ne. others i (λ e. ne (e ∙ same)),
              ground (arith, found a.id, eq_refl a.id),
            ),
          ),
        ),
      )
