-- ===== src/Client.antt =====
-- client/src: the relay client.
pub mod Address
pub mod Stream
pub mod Connection
pub mod Incoming
pub mod Task
pub mod Request
pub mod Manage
pub mod Certificate
pub mod Config
pub mod Socks5
pub mod Start
