-- ===== src/Runner.antt =====
-- The runner, crates/jesterky-core/src/runner.rs: it walks the graph of a workflow, drives its
-- nodes and makes the manifest of the run.
mod Errors
mod Readings
mod Seam
mod Monad
mod Nodes
mod Fan
mod Execute
mod Run
mod Manifest
pub mod Keeps
pub mod Steps
pub mod FanSteps
pub mod LimitSteps
pub mod NodeSteps
pub mod Ends
pub mod Streams
pub mod Permits
pub mod RunSteps
pub mod Finished
pub mod RunEvents
pub mod Sequence
pub mod Parallel
pub mod Gate
pub mod Trace
unfoldable pub use Errors.*
unfoldable pub use Seam.*
unfoldable pub use Monad.*
unfoldable pub use Nodes.*
unfoldable pub use Fan.*
unfoldable pub use Execute.*
unfoldable pub use Run.*
unfoldable pub use Manifest.*
unfoldable pub use Readings.*
unfoldable pub use Trace.*
