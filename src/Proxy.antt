-- ===== src/Proxy.antt =====
-- internal/proxy: the forwarding of HTTP requests.
pub mod Exchange
pub mod Forward
pub mod Deliver
pub mod Pipeline
