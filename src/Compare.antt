-- ===== src/Compare.antt =====
-- The document comparator (internal/verifier/comparator.go, compare.go, compare/method.go).
mod Types
mod Methods
mod Caches
mod Flush
mod Run
pub mod Pairing
pub mod Verdict
mod Sizes
pub mod OneDocument
pub mod Memory
mod Ends
pub mod Terminates
unfoldable pub use Types.*
unfoldable pub use Methods.*
unfoldable pub use Caches.*
unfoldable pub use Flush.*
unfoldable pub use Run.*
