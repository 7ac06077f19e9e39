-- ===== src/Limits.antt =====
-- Named limits, crates/jesterky-core/src/limits.rs: an async semaphore for each name.
mod Defs
pub mod Schedule
pub mod Invariant
pub mod Steps
pub mod Safety
unfoldable pub use Defs.*
