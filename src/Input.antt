-- ===== src/Input.antt =====
-- The package input: the elements of a page as sources, and their bindings to a model.
pub mod ValueBindings
