-- ===== src/Relay.antt =====
-- internal/relay: the generic TCP/UDP relay.
pub mod Hold
pub mod Tcp
