-- ===== src/Payload.antt =====
-- web/src/lib/hooks/normalize.ts: from the request of a webhook to the item it becomes.
pub mod Json
pub mod Runtime
pub mod Fields
pub mod Values
pub mod Raw
pub mod Normalize
pub mod Body
pub mod Ingest
pub mod Serve
pub mod Clip
mod Tests
