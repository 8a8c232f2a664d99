-- ===== src/Observable.antt =====
-- The package observable: what models, controllers and bindings share to follow one another.
pub mod Observe
pub mod KeyPath
pub mod Scroll
pub mod Model
pub mod Validate
pub mod Transform
pub mod PathObserver
pub mod Binding
