-- ===== src/Wsrpc.antt =====
-- wsrpc: what the two sides of a session call of each other.
pub mod Failure
pub mod Server
