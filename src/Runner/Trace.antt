-- ===== src/Runner/Trace.antt =====
-- The process tree of a run: `build_trace` and the functions that it calls,
-- crates/jesterky-core/src/runner.rs.
mod Insert
mod Sort
mod Build
pub mod Kept
pub mod Leaves
pub mod Covers
unfoldable pub use Insert.*
unfoldable pub use Sort.*
unfoldable pub use Build.*
