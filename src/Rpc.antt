-- ===== src/Rpc.antt =====
-- The streaming_rpc package above its packets: streams, providers and what a node does with them.
pub mod Provider
pub mod Providers
pub mod Context
pub mod Push
pub mod Service
pub mod Pool
pub mod Bootstrap
pub mod Probe
pub mod Lifecycle
pub mod Selection
pub mod Node
