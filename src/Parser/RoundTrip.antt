-- ===== src/Parser/RoundTrip.antt =====
-- The protocol's JSON of a summary, as an agent sends it, and what the parser reads back from it.
use docksight.Base.{
  String, ◌≡◌, refl, inl, inr, true, List, [], ◌∷◌, Option, none, some, arith, eq_iff, All, AllSome,
  Option-cases, if◌then◌else◌,
}
use docksight.Json.{
  Numbers, Json, Items, Fields, num, str, arr, obj, nil, cons, end, field, items, filled,
}
use docksight.Protocol.Container.{ContainerPort, ContainerSummary}
use docksight.Parser.{parse_container_port, parse_ports, parse_container_summary}
use docksight.Parser.Contract.{IsPort, IsSummary}

module _ {Num : Type 0} where
  abbrev with_ip : Option String → Fields Num
  with_ip none = end
  with_ip (some ip) = field "ip" (str ip) end

  -- One port in the protocol's shape: `ip` is left out when it is unknown.
  abbrev pub port_json : ContainerPort Num → Json Num
  port_json p = obj (
      field "private" (num p.private)
        (field "public" (str p.public) (field "protocol" (str p.protocol) (with_ip p.ip))))

  abbrev pub ports_json : List (ContainerPort Num) → Items Num
  ports_json [] = nil
  ports_json (p ∷ ps) = cons (port_json p) (ports_json ps)

  abbrev pub summary_json : ContainerSummary Num → Json Num
  summary_json c = obj (
      field "id" (str c.id) (
        field "name" (str c.name) (
          field "image" (str c.image) (
            field "status" (str c.status) (
              field "state" (str c.state) (
                field "ports" (arr (ports_json c.ports)) (field "created" (num c.created) end)))))))

  abbrev sdk_ip : Option String → Fields Num
  sdk_ip none = end
  sdk_ip (some ip) = field "IP" (str ip) end

  abbrev sdk_public : Option Num → Fields Num → Fields Num
  sdk_public none fs = fs
  sdk_public (some x) fs = field "PublicPort" (num x) fs

  -- One port in the Docker SDK's shape: the public port is a number, left out when there is none.
  abbrev pub sdk_port_json : Num → Option Num → String → Option String → Json Num
  sdk_port_json private public type ip =
      obj (
        field "PrivatePort" (num private) (sdk_public public (field "Type" (str type) (sdk_ip ip))))

module _ (n : Numbers) where
  open n use {Num, is_finite}

  parse_container_port-port_json :
      (p : ContainerPort Num) → IsPort n p → parse_container_port n (port_json p) ≡ some p
  unfolding parse_container_port
  parse_container_port-port_json p h = elim (Option-cases p.ip) [
    | inl e ↦ ground arith
    | inr (ip, e) ↦ ground (arith, eq_iff ip "", h.has_ip)
  ]

  parse_ports-ports_json :
      (ps : List (ContainerPort Num))
      → All (IsPort n) ps
      → parse_ports n (items (ports_json ps)) ≡ ps
  unfolding parse_ports
  parse_ports-ports_json [] h = refl
  parse_ports-ports_json (p ∷ ps) (k, h) =
      ground (arith, parse_container_port-port_json p k, parse_ports-ports_json ps h)

  -- A summary that keeps the contract comes back from its JSON as it was, its ports included.
  pub parse_container_summary-summary_json :
      (c : ContainerSummary Num)
      → IsSummary n c
      → parse_container_summary n (summary_json c) ≡ some c
  unfolding parse_container_summary
  parse_container_summary-summary_json c h =
      ground (arith, eq_iff c.id "", parse_ports-ports_json c.ports h.ports)

  -- The text of a public port in the Docker SDK's shape.
  abbrev pub public_text : Option Num → String
  public_text none = ""
  public_text (some x) = if n.is_zero x then "" else n.to_text x

  -- A port in the Docker SDK's shape is read as the protocol's port with the same private port,
  -- type and interface (an empty one is left out); its public port is the number's text, or empty
  -- when it is 0 or missing.
  pub parse_container_port-sdk_port_json :
      (private : Num) (public : Option Num) (type : String) (ip : Option String)
      → is_finite private ≡ true
      → AllSome (λ x. is_finite x ≡ true) public
      → parse_container_port n (sdk_port_json private public type ip)
        ≡ some (record {
          private = private;
          public = public_text public;
          protocol = type;
          ip = filled ip;
        })
  unfolding parse_container_port
  parse_container_port-sdk_port_json private none type none p q = ground arith
  parse_container_port-sdk_port_json private none type (some ip) p q = ground arith
  parse_container_port-sdk_port_json private (some x) type none p q = ground arith
  parse_container_port-sdk_port_json private (some x) type (some ip) p q = ground arith
