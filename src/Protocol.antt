-- ===== src/Protocol.antt =====
-- packages/protocol/src/index.ts: the wire messages.
mod Types
pub mod Codec
pub mod Envelopes
pub mod Legacy
unfoldable pub use Types.*
