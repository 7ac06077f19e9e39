-- ===== src/Topology.antt =====
-- The graph of a workflow and its validation, crates/jesterky-contract/src/topology.rs.
mod Defs
mod Validate
mod Graph
mod Whole
pub mod Destination
pub mod WellFormed
pub mod Search
pub mod Rank
pub mod Order
pub mod Cycles
unfoldable pub use Defs.*
unfoldable pub use Validate.*
unfoldable pub use Graph.*
unfoldable pub use Whole.*
