-- ===== src/Ws.antt =====
-- firmware/src/ws: the WebSocket client.
pub mod Frame
pub mod Handshake
pub mod Connection
pub mod Receive
