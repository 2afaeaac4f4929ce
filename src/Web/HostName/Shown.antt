-- ===== src/Web/HostName/Shown.antt =====
-- The web client shows the name that the server gives a host.
use docksight.Base.{
  String, ◌≡◌, refl, ◌∙◌, subst, false, Option, none, some, ◌==◌, inl, inr, Bool-cases,
  Option-cases, or_else, if◌then◌else◌, arith,
}
use docksight.Text.{trim}
use docksight.Text.Trim.{trim-trim}
use docksight.Agents.{Agent}
use docksight.HostMetrics.{HostMetricsSnapshot}
use docksight.Hosts.{HostDto, label, to_host_dto}
use docksight.Web.HostName.{NamedHost, host_display_name}

-- A host as the client gets it from the server.
abbrev pub received_host : {Num : Type 0} → HostDto Num → NamedHost
received_host dto = record { hostname = dto.hostname; display_name = some dto.display_name }

-- A text that is trimmed is its own label, unless it is empty.
trimmed-label :
    (name fallback : String)
    → trim name ≡ name
    → or_else (label (some name)) fallback ≡ (if name == "" then fallback else name)
trimmed-label name fallback h = elim (Bool-cases (name == "")) [
  | inl e ↦ rw (h, e) refl
  | inr e ↦ rw (h, e) refl
]

label-IsTrimmed :
    (o : Option String) (name : String)
    → label o ≡ some name
    → (trim name ≡ name) × ((name == "") ≡ false)
label-IsTrimmed none name h = ground arith
label-IsTrimmed (some t) name h = elim (Bool-cases (trim t == "")) [
  | inl e ↦ ground (arith, h, e)
  | inr e ↦
      let p : trim t ≡ name = ground (arith, h, e) in
      (subst (λ n. trim n ≡ n) p (trim-trim t), subst (λ n. (n == "") ≡ false) p e)
]

-- For a host whose own name has no space around it, the client shows exactly the display name that the
-- server sends, whether or not an operator has set one.
pub shown_as_served :
    {Num : Type 0}
    → (a : Agent) (s : Option (HostMetricsSnapshot Num)) → trim a.hostname ≡ a.hostname
    → host_display_name (received_host (to_host_dto a s)) ≡ (to_host_dto a s).display_name
unfolding host_display_name to_host_dto
shown_as_served a s h = elim (Option-cases (label a.display_name)) [
  | inl e ↦ rw e (trimmed-label a.hostname a.hostname h ∙ ground arith)
  | inr (name, e) ↦
      let (p, q) = label-IsTrimmed a.display_name name e in
      rw e (trimmed-label name a.hostname p ∙ rw q refl)
]
