-- ===== src/Proxy.antt =====
-- The proxy, crates/jesterky-proxy: it takes Responses requests and asks a chat provider.
pub mod Files
pub mod Budget
pub mod Route
pub mod Sse
pub mod Convert
pub mod Server
