-- ===== src/Protocol.antt =====
-- The v2 protocol's runtime state, src/protocol/v2.c, and the fallback to v1 that
-- src/network/websocket.c bases on it.
pub mod State
pub mod Fallback
pub mod Compress
