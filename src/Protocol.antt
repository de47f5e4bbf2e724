-- ===== src/Protocol.antt =====
-- internal/protocol: the messages between the agents and the controller, and their lines.
pub mod Types
pub mod Messages
pub mod Validate
pub mod Codec
pub mod Framing
mod Tests
