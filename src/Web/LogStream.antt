-- ===== src/Web/LogStream.antt =====
-- apps/web/src/hooks/useContainerLogs.ts: the frames of the stream and the state of the view.
pub mod Frames
pub mod Drain
pub mod View
pub mod Shows
pub mod Lossless
pub mod Chunk
pub mod Lines
pub mod Wire
