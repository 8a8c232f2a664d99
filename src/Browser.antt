-- ===== src/Browser.antt =====
-- browser: the side of the page, in its wasm.
pub mod Session
pub mod FormStore
