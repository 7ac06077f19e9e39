-- ===== src/Clock.antt =====
-- The logical clock of a run, crates/jesterky-core/src/runner.rs: an address is a place in the
-- graph and a number that the place itself counts.
mod Defs
pub mod Lanes
pub mod Stream
pub mod Independence
pub mod Unique
unfoldable pub use Defs.*
