-- ===== src/Process.antt =====
-- What a worker does with a task: migration_verifier.go, mismatches.go and check.go under
-- internal/verifier.
mod Mismatches
mod Documents
mod Partitioning
mod Collections
mod Enqueued
pub mod Reported
mod Partitioned
mod Noted
mod Stored
pub mod Judged
pub mod Succeeds
pub mod Attempts
pub mod Retried
unfoldable pub use Mismatches.*
unfoldable pub use Documents.*
unfoldable pub use Partitioning.*
unfoldable pub use Collections.*
