-- ===== src/Websocket.antt =====
-- The WebSocket client, src/network/websocket.c.
pub mod Base64
pub mod UrlEncode
pub mod Mask
pub mod Transport
pub mod Frame
pub mod Fragment
pub mod Header
pub mod Url
pub mod Message
mod Samples
pub mod Event
pub mod Session
pub mod Lifecycle
