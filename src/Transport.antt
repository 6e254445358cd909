-- ===== src/Transport.antt =====
-- internal/transport: the DTP agent protocol.
pub mod Guard
pub mod Client
pub mod Report
