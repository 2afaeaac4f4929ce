-- ===== src/Protocol/Envelope.antt =====
-- packages/protocol/src/envelope.ts.
use docksight.Base.{String, Option, none, some}
use docksight.Json.{Json, Fields, obj, prop, as_text}

pub record Envelope (Num : Type 0) : Type 0 where
  pub type : String
  pub payload : Fields Num

module _ {Num : Type 0} where
  -- createEnvelope
  abbrev pub create_envelope : String → Fields Num → Envelope Num
  create_envelope type payload = record { type = type; payload = payload }

  abbrev envelope_of : Option String → Option (Json Num) → Option (Envelope Num)
  envelope_of (some type) (some (obj payload)) = some (create_envelope type payload)
  envelope_of _ _ = none

  -- isMessageEnvelope, with the value so narrowed
  unfoldable pub is_message_envelope : Json Num → Option (Envelope Num)
  is_message_envelope (obj fs) = envelope_of (as_text (prop "type" fs)) (prop "payload" fs)
  is_message_envelope _ = none
