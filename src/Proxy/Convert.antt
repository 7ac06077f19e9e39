-- ===== src/Proxy/Convert.antt =====
-- From a Responses request to a chat payload, crates/jesterky-proxy/src/convert.rs.
pub mod Request
pub mod Chat
pub mod Translate
pub mod Names
pub mod Laws
