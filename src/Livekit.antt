-- ===== src/Livekit.antt =====
-- internal/ingest/adapter/livekit: verification of a delivery's signature, and its translation into
-- a canonical event.
pub mod Json
pub mod JsonNum
pub mod Payload
pub mod Translate
pub mod Base64
pub mod Verify
