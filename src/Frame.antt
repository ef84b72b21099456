-- ===== src/Frame.antt =====
-- crates/zydecodb-engine/src/frame.rs: the wire envelope and the payloads of the key-value commands.
pub mod Command
pub mod Codes
pub mod Routing
pub mod Envelope
pub mod Payload
mod Tests
