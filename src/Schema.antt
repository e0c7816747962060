-- ===== src/Schema.antt =====
-- The document of a spec (schema/): paths, values, predicates and the blocks that hold them.
pub mod Path
pub mod Value
pub mod Interpolation
pub mod Doc
pub mod Secret
pub mod Validation
