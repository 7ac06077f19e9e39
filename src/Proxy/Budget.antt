-- ===== src/Proxy/Budget.antt =====
-- The reservation of spending, crates/jesterky-proxy/src/budget.rs.
pub mod Defs
pub mod Media
pub mod Steps
pub mod Spending
