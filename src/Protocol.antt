-- ===== src/Protocol.antt =====
-- packages/protocol: the envelope, the message types and the payloads that both ends share.
pub mod Envelope
pub mod Container
pub mod Messages
