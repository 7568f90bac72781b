-- ===== src/Packet.antt =====
-- The packets of streaming_rpc and their byte formats.
pub mod Services
pub mod Headers
pub mod Request
pub mod Response
pub mod Data
pub mod Utf8
pub mod Handshake
mod Tests
