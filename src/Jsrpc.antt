-- ===== src/Jsrpc.antt =====
-- jsrpc: the service that a page's wasm offers to the server, and its calls of the server.
pub mod Handles
pub mod Forms
pub mod Form
pub mod Pending
