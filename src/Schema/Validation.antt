-- ===== src/Schema/Validation.antt =====
-- schema/validate.go: the structural diagnostics of a document.
pub mod Diag
pub mod Refs
pub mod Values
pub mod Auth
pub mod Lifetimes
pub mod Requests
pub mod Document
