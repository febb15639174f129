-- ===== src/Driver.antt =====
-- The driver of the generations: check.go and generation.go under internal/verifier.
mod Setup
mod Generations
pub mod Resumes
pub mod Finishes
pub mod Ends
unfoldable pub use Setup.*
unfoldable pub use Generations.*
