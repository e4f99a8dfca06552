-- ===== src/Protocol.antt =====
-- protocol/src/lib.rs: the wire format that client and server share.
pub mod Reader
pub mod Address
pub mod Command
