-- ===== src/Parser.antt =====
-- apps/server/src/agents/container-listed.parser.ts. A `null` result is `none`.
pub mod Contract
pub mod RoundTrip
pub mod Listed
use docksight.Base.{
  ℕ, suc, String, Bool, not, ◌&&◌, List, [], ◌∷◌, Option, none, some, ◌==◌, if◌then◌else◌,
}
use docksight.Json.{
  Numbers, Json, Items, Fields, null, bool, num, str, arr, obj, nil, cons, end, field, items, prop,
  as_text, as_array, as_finite, filled,
}
use docksight.Protocol.Container.{ContainerPort, ContainerSummary}

pub record ParsedContainerListed (Num : Type 0) : Type 0 where
  pub containers : List (ContainerSummary Num)
  pub dropped : ℕ

-- The first of two attempts that gives a value.
abbrev pub first {ℓ} : {A : Type ℓ} → Option A → Option A → Option A
first none b = b
first (some a) b = some a

module _ {Num : Type 0} where
  port_of : Option Num → Option String → Option String → Option String → Option (ContainerPort Num)
  port_of (some private) (some public) (some protocol) ip =
      some (record { private = private; public = public; protocol = protocol; ip = ip })
  port_of _ _ _ _ = none

  abbrev keep_port :
      Option (ContainerPort Num) → List (ContainerPort Num) → List (ContainerPort Num)
  keep_port none ports = ports
  keep_port (some port) ports = port ∷ ports

  -- What is no array has no ports.
  abbrev pub entries_of : Option (Items Num) → List (Json Num)
  entries_of none = []
  entries_of (some vs) = items vs

  summary_of :
      Option String
      → Option String
      → Option String
      → Option String
      → Option String
      → Option Num
      → List (ContainerPort Num)
      → Option (ContainerSummary Num)
  summary_of (some id) (some name) (some image) (some status) (some state) (some created) ports =
      some (record {
        id = id;
        name = name;
        image = image;
        status = status;
        state = state;
        ports = ports;
        created = created;
      })
  summary_of _ _ _ _ _ _ _ = none

  abbrev count_entry :
      Option (ContainerSummary Num) → ParsedContainerListed Num → ParsedContainerListed Num
  count_entry none rest = record rest { dropped = suc rest.dropped }
  count_entry (some c) rest = record rest { containers = c ∷ rest.containers }

module _ (n : Numbers) where
  open n use {Num, is_finite, is_zero, to_text}

  -- The public port of the Docker SDK's shape, as a text.
  legacy_public : Option (Json Num) → String
  legacy_public (some (num x)) = if is_finite x && not (is_zero x) then to_text x else ""
  legacy_public (some (str s)) = s
  legacy_public _ = ""

  -- The protocol's shape first, and then that of the Docker SDK.
  port_fields : Fields Num → Option (ContainerPort Num)
  unfolding port_of legacy_public
  port_fields fs =
      first
        (port_of (as_finite n (prop "private" fs)) (as_text (prop "public" fs))
          (as_text (prop "protocol" fs)) (filled (as_text (prop "ip" fs))))
        (port_of (as_finite n (prop "PrivatePort" fs)) (some (legacy_public (prop "PublicPort" fs)))
          (as_text (prop "Type" fs)) (filled (as_text (prop "IP" fs))))

  -- parseContainerPort
  unfoldable pub parse_container_port : Json Num → Option (ContainerPort Num)
  unfolding port_fields
  parse_container_port (obj fs) = port_fields fs
  parse_container_port _ = none

  -- The loop over `ports`: an entry that cannot be read is left out.
  unfoldable pub parse_ports : List (Json Num) → List (ContainerPort Num)
  parse_ports [] = []
  parse_ports (entry ∷ entries) = keep_port (parse_container_port entry) (parse_ports entries)

  summary_fields : Fields Num → Option (ContainerSummary Num)
  unfolding summary_of
  summary_fields fs =
      summary_of (filled (as_text (prop "id" fs))) (as_text (prop "name" fs))
        (as_text (prop "image" fs)) (as_text (prop "status" fs)) (as_text (prop "state" fs))
        (as_finite n (prop "created" fs)) (parse_ports (entries_of (as_array (prop "ports" fs))))

  -- parseContainerSummary
  unfoldable pub parse_container_summary : Json Num → Option (ContainerSummary Num)
  unfolding summary_fields
  parse_container_summary (obj fs) = summary_fields fs
  parse_container_summary _ = none

  -- The loop over `payload.containers`.
  unfoldable pub parse_entries : List (Json Num) → ParsedContainerListed Num
  parse_entries [] = record { containers = []; dropped = 0 }
  parse_entries (entry ∷ entries) =
      count_entry (parse_container_summary entry) (parse_entries entries)

  -- parseContainerListedPayload
  unfoldable pub parse_container_listed_payload : Json Num → ParsedContainerListed Num
  unfolding parse_entries
  parse_container_listed_payload (obj fs) =
      parse_entries (entries_of (as_array (prop "containers" fs)))
  parse_container_listed_payload _ = record { containers = []; dropped = 0 }
