-- ===== src/Limiter.antt =====
-- The concurrency gate of a model and provider, crates/jesterky-model/src/limiter.rs.
pub mod Defs
pub mod Notify
pub mod Schedule
pub mod Bounds
pub mod Safety
pub mod Rate
