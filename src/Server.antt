-- ===== src/Server.antt =====
-- server/src: the relay server.
pub mod Udp
pub mod Authenticate
pub mod Task
pub mod Dispatch
pub mod Connection
pub mod Certificate
pub mod Config
pub mod Start
