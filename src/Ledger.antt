-- ===== src/Ledger.antt =====
-- The ledger of a run, crates/jesterky-core/src/ledger.rs: slots that nodes write, the items that
-- a map or a loop binds, and typed references into both.
mod Refs
mod Paths
mod State
pub mod Items
pub mod Store
pub mod Outputs
pub mod Inputs
unfoldable pub use Refs.*
unfoldable pub use Paths.*
unfoldable pub use State.*
