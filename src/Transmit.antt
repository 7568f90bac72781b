-- ===== src/Transmit.antt =====
-- The streaming_transmit package: connections that carry framed messages, requests and responses.
pub mod Settings
pub mod Session
pub mod Sized
pub mod Conn
pub mod Client
pub mod Server
pub mod Metrics
pub mod Link
