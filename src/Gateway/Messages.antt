-- ===== src/Gateway/Messages.antt =====
-- handleMessage, the `switch` that it dispatches by, and the handler of samples. Where the source would
-- use a `uuid` of another type than text as a key (a heartbeat, or a sample of an agent that never
-- registered), the model ignores the message.
use docksight.Base.{ℕ, String, ◌&&◌, List, [], ◌∷◌, ◌++◌, Option, none, some, ◌==◌, if◌then◌else◌}
use docksight.Inventory.{or_found}
use docksight.HostMetrics
use docksight.HostMetrics.{HostMetricsPayload}
use docksight.Json.{Numbers, Json, Fields, null, str, prop, as_text, or_default, filled, truthy}
use docksight.Protocol.Envelope.{Envelope, is_message_envelope}
use docksight.Protocol.Container.{container_listed, container_result, container_inspected}
use docksight.Protocol.Messages.{agent_register, agent_heartbeat, logs_chunk, metrics_host}
use docksight.Gateway.State.{Gateway, send}
use docksight.Gateway.Handlers.{
  refusal, handle_heartbeat, handle_logs_chunk, handle_register, handle_container_listed,
  handle_container_result, handle_container_inspected,
}

-- `Buffer | ArrayBuffer | Buffer[]`, by their bytes.
pub data RawData : Type 0 where
  buffer array_buffer : List ℕ → RawData
  buffers : List (List ℕ) → RawData

abbrev concat : List (List ℕ) → List ℕ
concat [] = []
concat (b ∷ bs) = b ++ concat bs

-- decodeRawData, up to the text that the bytes stand for.
unfoldable pub decode_raw_data : RawData → List ℕ
decode_raw_data (buffers bs) = concat bs
decode_raw_data (buffer b) = b
decode_raw_data (array_buffer b) = b

-- What the language's runtime gives: the text of UTF-8 bytes through JSON.parse, where `none` is an
-- exception, and `new Date(value)` in milliseconds, where `none` is an invalid date.
pub record Runtime (n : Numbers) : Type 0 where
  pub parse_json : List ℕ → Option (Json n.Num)
  pub parse_date : Option (Json n.Num) → Option ℕ

module _ (n : Numbers) (r : Runtime n) where
  open n use {Num}

  -- The payload as the metrics store keeps it; a falsy `collectedAt` is not read as a date.
  abbrev pub sample_of : Fields Num → HostMetricsPayload Num
  sample_of payload = record {
    cpu = or_default (prop "cpu" payload) null;
    memory = or_default (prop "memory" payload) null;
    collected_at =
        if truthy n (prop "collectedAt" payload)
        then r.parse_date (prop "collectedAt" payload)
        else none;
  }

  abbrev metrics_for : Option String → ℕ → Fields Num → ℕ → Gateway Num → Gateway Num
  metrics_for none client payload now g = g
  metrics_for (some uuid) client payload now g =
      if truthy n (prop "cpu" payload) && truthy n (prop "memory" payload)
      then record g {
        host_metrics =
            (HostMetrics.set_metrics uuid (sample_of payload) (g.sockets client).agent_id now
              g.host_metrics).0;
      }
      else g

  unfoldable pub handle_host_metrics : ℕ → Fields Num → ℕ → Gateway Num → Gateway Num
  handle_host_metrics client payload now g =
      metrics_for (filled (or_found (g.sockets client).agent_uuid (as_text (prop "uuid" payload))))
        client payload now g

  -- The `switch` on the envelope's type; an unknown type is only logged.
  unfoldable pub dispatch : ℕ → Envelope Num → ℕ → Gateway Num → Gateway Num
  dispatch client e now g =
      if e.type == agent_register
      then handle_register n client e.payload g
      else if e.type == agent_heartbeat
      then handle_heartbeat client e.payload g
      else if e.type == container_listed
      then handle_container_listed n client e.payload now g
      else if e.type == container_result
      then handle_container_result n e.payload g
      else if e.type == container_inspected
      then handle_container_inspected n e.payload g
      else if e.type == logs_chunk
      then handle_logs_chunk e.payload g
      else if e.type == metrics_host
      then handle_host_metrics client e.payload now g
      else g

  abbrev message_of : Option (Envelope Num) → ℕ → ℕ → Gateway Num → Gateway Num
  message_of none client now g = g
  message_of (some e) client now g = dispatch client e now g

  abbrev parsed_message : Option (Json Num) → ℕ → ℕ → Gateway Num → Gateway Num
  parsed_message none client now g = send client (refusal (str "") "Invalid JSON message") g
  parsed_message (some v) client now g = message_of (is_message_envelope v) client now g

  unfoldable pub handle_message : ℕ → RawData → ℕ → Gateway Num → Gateway Num
  unfolding dispatch
  handle_message client raw now g = parsed_message (r.parse_json (decode_raw_data raw)) client now g
