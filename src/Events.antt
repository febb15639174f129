-- ===== src/Events.antt =====
-- Change events under internal/verifier: event_recorder.go, the counts of change_reader.go, and
-- PersistChangeEvents of recheck_persist.go.
mod Recorder
mod Persist
pub mod Rows
pub mod Named
pub mod Rechecks
unfoldable pub use Recorder.*
unfoldable pub use Persist.*
