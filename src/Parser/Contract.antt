-- ===== src/Parser/Contract.antt =====
-- What the parser promises of the containers that it lets through.
use docksight.Base.{
  String, ◌≡◌, ◌≢◌, inl, inr, true, List, [], ◌∷◌, Option, none, some, arith, eq_iff, All,
  Option-cases,
}
use docksight.Json.{Numbers, Json, Fields, obj, prop, as_text, as_array, as_finite, filled}
use docksight.Protocol.Container.{ContainerPort, ContainerSummary}
use docksight.Parser.{
  parse_container_port, parse_ports, parse_container_summary, port_fields, port_of, summary_fields,
  entries_of, legacy_public,
}

module _ (n : Numbers) where
  open n use {Num, is_finite}

  -- A port with a finite number and, if it has an interface, a text that is not empty.
  pub record IsPort (p : ContainerPort Num) : Type 0 where
    pub finite : is_finite p.private ≡ true
    pub has_ip : p.ip ≢ some ""

  -- A summary with an id, a finite creation time, and such ports only.
  pub record IsSummary (c : ContainerSummary Num) : Type 0 where
    pub has_id : c.id ≢ ""
    pub finite : is_finite c.created ≡ true
    pub ports : All IsPort c.ports

  pub as_finite_lem :
      (v : Option (Json Num)) {x : Num} → as_finite n v ≡ some x → is_finite x ≡ true
  as_finite_lem v h = ground arith

  pub filled_lem : (v : Option String) → filled v ≢ some ""
  filled_lem none h = cc
  filled_lem (some s) h = ground (arith, eq_iff s "")

  port_of-IsPort :
      (v : Option (Json Num)) (public protocol : Option String) (ip : Option String)
      {p : ContainerPort Num}
      → port_of (as_finite n v) public protocol (filled ip) ≡ some p
      → IsPort p
  unfolding port_of
  port_of-IsPort v public protocol ip h = ground (arith, as_finite_lem v, filled_lem ip)

  port_fields-IsPort :
      (fs : Fields Num) {p : ContainerPort Num} → port_fields n fs ≡ some p → IsPort p
  unfolding port_fields
  port_fields-IsPort fs {p} h = ground (
    arith,
    port_of-IsPort (prop "private" fs) (as_text (prop "public" fs)) (as_text (prop "protocol" fs))
        (as_text (prop "ip" fs)) {p = p},
    port_of-IsPort (prop "PrivatePort" fs) (some (legacy_public n (prop "PublicPort" fs)))
        (as_text (prop "Type" fs)) (as_text (prop "IP" fs)) {p = p},
  )

  pub parse_container_port-IsPort :
      (v : Json Num) {p : ContainerPort Num} → parse_container_port n v ≡ some p → IsPort p
  unfolding parse_container_port
  parse_container_port-IsPort (obj fs) h = port_fields-IsPort fs h
  parse_container_port-IsPort _ h = cc

  pub parse_ports-IsPort : (vs : List (Json Num)) → All IsPort (parse_ports n vs)
  unfolding parse_ports
  parse_ports-IsPort [] = tt
  parse_ports-IsPort (v ∷ vs) = elim (Option-cases (parse_container_port n v)) [
    | inl e ↦ ground (arith, parse_ports-IsPort vs)
    | inr (p, e) ↦ ground (arith, parse_container_port-IsPort v e, parse_ports-IsPort vs)
  ]

  summary_fields-IsSummary :
      (fs : Fields Num) {c : ContainerSummary Num} → summary_fields n fs ≡ some c → IsSummary c
  unfolding summary_fields
  summary_fields-IsSummary fs h = ground (
    arith,
    filled_lem (as_text (prop "id" fs)),
    as_finite_lem (prop "created" fs),
    parse_ports-IsPort (entries_of (as_array (prop "ports" fs))),
  )

  -- Every summary that the parser lets through has an id that is not empty, a finite creation time,
  -- and only ports with a finite number and no empty interface.
  pub parse_container_summary-IsSummary :
      (v : Json Num) (c : ContainerSummary Num) → parse_container_summary n v ≡ some c → IsSummary c
  unfolding parse_container_summary
  parse_container_summary-IsSummary (obj fs) c h = summary_fields-IsSummary fs h
  parse_container_summary-IsSummary _ c h = cc
