-- ===== src/Grounding.antt =====
-- Annotation grounding, crates/jesterky-contract/src/grounding.rs: the report over a manifest.
pub mod Report
pub mod Closed
