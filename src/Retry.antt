-- ===== src/Retry.antt =====
-- internal/retry: running callbacks again after transient errors.
mod Builders
mod Loop
mod Rounds
pub mod Finish
pub mod Ends
unfoldable pub use Builders.*
unfoldable pub use Loop.*
