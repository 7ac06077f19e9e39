-- ===== src/Artifact.antt =====
-- The record of a run and its self-check, crates/jesterky-contract/src/artifact.rs.
mod Verdicts
mod Defs
mod Checks
pub mod UniqueAddrs
pub mod Coverage
unfoldable pub use Verdicts.*
unfoldable pub use Defs.*
unfoldable pub use Checks.*
