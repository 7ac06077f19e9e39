-- ===== src/Proxy/Sse.antt =====
-- The event stream of a reply, crates/jesterky-proxy/src/sse.rs.
pub mod Defs
pub mod Reply
pub mod Client
pub mod Stream
pub mod Numbers
pub mod Items
