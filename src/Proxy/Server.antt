-- ===== src/Proxy/Server.antt =====
-- The HTTP server of the proxy, crates/jesterky-proxy/src/server.rs.
pub mod Auth
pub mod Signatures
pub mod Harvested
pub mod Returned
pub mod Catalog
pub mod State
pub mod Wire
pub mod Handle
pub mod Sends
pub mod Spent
pub mod Authority
