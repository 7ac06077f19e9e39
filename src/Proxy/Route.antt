-- ===== src/Proxy/Route.antt =====
-- Route resolution, crates/jesterky-proxy/src/route.rs.
pub mod Defs
pub mod Laws
