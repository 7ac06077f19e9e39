-- ===== src/Event.antt =====
-- Event addresses and their order, crates/jesterky-contract/src/event.rs.
mod Defs
pub mod Compare
pub mod Order
unfoldable pub use Defs.*
