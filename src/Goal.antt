-- ===== src/Goal.antt =====
-- Goals, crates/jesterky-contract/src/goal.rs: semantic targets that are read off the ledger.
mod Defs
mod Engine
pub mod Progress
pub mod Counts
pub mod Reads
unfoldable pub use Defs.*
unfoldable pub use Engine.*
