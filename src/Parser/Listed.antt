-- ===== src/Parser/Listed.antt =====
-- The whole `container.listed` payload.
use mathlib.Core.List.{filter_map}
use docksight.Base.{◌+◌, ◌≡◌, refl, inl, inr, List, [], ◌∷◌, arith, All, Option-cases, length}
use docksight.Json.{Numbers, Json, Items, nil, cons, obj, end, field, arr, items}
use docksight.Protocol.Container.{ContainerSummary}
use docksight.Parser.{
  parse_container_summary, parse_entries, parse_container_listed_payload, entries_of,
}
use docksight.Parser.Contract.{IsSummary, parse_container_summary-IsSummary}
use docksight.Parser.RoundTrip.{summary_json, parse_container_summary-summary_json}

module _ {Num : Type 0} where
  abbrev pub summaries_json : List (ContainerSummary Num) → Items Num
  summaries_json [] = nil
  summaries_json (c ∷ cs) = cons (summary_json c) (summaries_json cs)

  -- The payload that an agent sends for these containers.
  abbrev pub listed_json : List (ContainerSummary Num) → Json Num
  listed_json cs = obj (field "containers" (arr (summaries_json cs)) end)

  abbrev pub payload_json : Items Num → Json Num
  payload_json vs = obj (field "containers" (arr vs) end)

module _ (n : Numbers) where
  open n use {Num}

  parse_entries-filter_map :
      (vs : List (Json Num))
      → (parse_entries n vs).containers ≡ filter_map (parse_container_summary n) vs
  unfolding parse_entries filter_map
  parse_entries-filter_map [] = refl
  parse_entries-filter_map (v ∷ vs) = ground (arith, parse_entries-filter_map vs)

  length-parse_entries :
      (vs : List (Json Num))
      → length (parse_entries n vs).containers + (parse_entries n vs).dropped ≡ length vs
  unfolding parse_entries
  length-parse_entries [] = omega arith
  length-parse_entries (v ∷ vs) = ground (arith, length-parse_entries vs)

  parse_entries-IsSummary :
      (vs : List (Json Num)) → All (IsSummary n) (parse_entries n vs).containers
  unfolding parse_entries
  parse_entries-IsSummary [] = tt
  parse_entries-IsSummary (v ∷ vs) = elim (Option-cases (parse_container_summary n v)) [
    | inl e ↦ ground (arith, parse_entries-IsSummary vs)
    | inr (c, e) ↦
        ground (arith, parse_container_summary-IsSummary n v c e, parse_entries-IsSummary vs)
  ]

  parse_entries-summaries_json :
      (cs : List (ContainerSummary Num))
      → All (IsSummary n) cs
      → parse_entries n (items (summaries_json cs)) ≡ record { containers = cs; dropped = 0 }
  unfolding parse_entries
  parse_entries-summaries_json [] h = refl
  parse_entries-summaries_json (c ∷ cs) (k, h) =
      ground (arith, parse_container_summary-summary_json n c k, parse_entries-summaries_json cs h)

  -- Of an array of entries the parser keeps, in the agent's order, exactly those that it can read,
  -- and every entry is either kept or counted as dropped.
  pub parse_container_listed_payload_lem :
      (vs : Items Num)
      → let r = parse_container_listed_payload n (payload_json vs) in
        (r.containers ≡ filter_map (parse_container_summary n) (items vs))
        × (length r.containers + r.dropped ≡ length (items vs))
  unfolding parse_container_listed_payload
  parse_container_listed_payload_lem vs =
      (parse_entries-filter_map (items vs), length-parse_entries (items vs))

  -- What the parser lets through keeps the contract of a summary, whatever the agent sends.
  pub parse_container_listed_payload-IsSummary :
      (v : Json Num) → All (IsSummary n) (parse_container_listed_payload n v).containers
  unfolding parse_container_listed_payload
  parse_container_listed_payload-IsSummary (obj fs) = parse_entries-IsSummary (entries_of _)
  parse_container_listed_payload-IsSummary _ = tt

  -- Containers that keep the contract come back from their JSON as they were, with nothing dropped.
  pub parse_container_listed_payload-listed_json :
      (cs : List (ContainerSummary Num))
      → All (IsSummary n) cs
      → parse_container_listed_payload n (listed_json cs) ≡ record { containers = cs; dropped = 0 }
  unfolding parse_container_listed_payload
  parse_container_listed_payload-listed_json cs h = parse_entries-summaries_json cs h

  -- Parsing once more what was parsed and sent on changes nothing and drops nothing.
  pub parse_container_listed_payload_idempotent :
      (v : Json Num)
      → let r = parse_container_listed_payload n v in
        parse_container_listed_payload n (listed_json r.containers)
        ≡ record { containers = r.containers; dropped = 0 }
  parse_container_listed_payload_idempotent v =
      parse_container_listed_payload-listed_json _ (parse_container_listed_payload-IsSummary v)
