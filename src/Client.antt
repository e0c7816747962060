-- ===== src/Client.antt =====
-- The interpreter of a document (client/).
pub mod Platform
pub mod Numerals
pub mod Coerce
pub mod Compare
pub mod Reduce
pub mod Scope
pub mod BodyPath
pub mod Refs
pub mod Eval
pub mod Exec
pub mod Lifetime
pub mod Progress
pub mod Pagination
pub mod Extract
pub mod Cache
pub mod Wire
pub mod Decode
pub mod TokenForm
pub mod Token
pub mod Trace
pub mod Auth
pub mod Dispatch
pub mod Http
pub mod FanOut
pub mod Request
pub mod Iteration
pub mod Runner
pub mod Emitter
pub mod Redact
pub mod FileStore
pub mod Samples
