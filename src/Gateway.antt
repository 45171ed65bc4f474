-- ===== src/Gateway.antt =====
-- src/gateway: what a client of the WebSocket sends and is sent.
pub mod Frame
pub mod Message
pub mod Handshake
pub mod Client
