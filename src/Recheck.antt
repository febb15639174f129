-- ===== src/Recheck.antt =====
-- Rechecks under internal/verifier: recheck.go, and the documents of recheck/recheck.go.
mod Queue
mod Generate
mod Read
pub mod Split
pub mod Batches
pub mod Persisted
mod Metadata
pub mod Covers
pub mod Bounds
unfoldable pub use Queue.*
unfoldable pub use Generate.*
unfoldable pub use Read.*
