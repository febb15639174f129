-- ===== src/Tasks.antt =====
-- Verification tasks in the metadata database: verification_task.go, reset.go, tasks/ and the task
-- parts of check.go and migration_verifier.go under internal/verifier.
mod Types
mod Store
mod Creation
mod Reset
pub mod InProgress
pub mod Rollback
pub mod Claim
pub mod Workers
pub mod Waiting
mod Progress
pub mod Exclusive
unfoldable pub use Types.*
unfoldable pub use Store.*
unfoldable pub use Creation.*
unfoldable pub use Reset.*
