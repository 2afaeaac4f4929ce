-- ===== src/Tests/Parsing.antt =====
-- A container with one published port, and an entry that cannot be read.
use mathlib.Core.List.{filter_map}
use docksight.Base.{ℕ, ◌+◌, [], ◌∷◌, ◌≡◌, refl, length}
use docksight.Json.{Items, null, nil, cons, items}
use docksight.Parser.{parse_container_summary, parse_container_listed_payload}
use docksight.Parser.Contract.{IsPort, IsSummary}
use docksight.Parser.RoundTrip.{summary_json}
use docksight.Parser.Listed.{
  listed_json, payload_json, parse_container_listed_payload_lem,
  parse_container_listed_payload-listed_json,
}
use docksight.Tests.Samples.{numbers, web, web_port}

web_port-IsPort : IsPort numbers web_port
web_port-IsPort = record { finite = refl; has_ip = cc }

pub web-IsSummary : IsSummary numbers web
web-IsSummary = record { has_id = cc; finite = refl; ports = (web_port-IsPort, tt) }

-- A readable entry after one that is not.
abbrev listing : Items ℕ
listing = cons null (cons (summary_json web) nil)

parse_container_listed_payload_lem_example :
    let r = parse_container_listed_payload numbers (payload_json listing) in
    (r.containers ≡ filter_map (parse_container_summary numbers) (items listing))
    × (length r.containers + r.dropped ≡ length (items listing))
parse_container_listed_payload_lem_example = parse_container_listed_payload_lem numbers listing

parse_container_listed_payload-listed_json_example :
    parse_container_listed_payload numbers (listed_json (web ∷ []))
    ≡ record { containers = web ∷ []; dropped = 0 }
parse_container_listed_payload-listed_json_example =
    parse_container_listed_payload-listed_json numbers (web ∷ []) (web-IsSummary, tt)
