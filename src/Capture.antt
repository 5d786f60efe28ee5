-- ===== src/Capture.antt =====
-- internal/sysCapture: the system-level packet capture.
pub mod Hold
pub mod Packet
pub mod Flow
pub mod Session
pub mod Service
