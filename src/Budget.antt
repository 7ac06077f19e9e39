-- ===== src/Budget.antt =====
-- Resource budgets, crates/jesterky-contract/src/budget.rs: the plan, the engine and its forecast.
mod Defs
mod Forecast
mod Engine
pub mod Plan
pub mod Verdict
mod Numbers
pub mod Nearest
unfoldable pub use Defs.*
unfoldable pub use Forecast.*
unfoldable pub use Engine.*
