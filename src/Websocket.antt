-- ===== src/Websocket.antt =====
-- src/websocket: the messages, and the server.
pub mod Messages
pub mod ServerState
pub mod Handling
pub mod Connections
pub mod Transport
pub mod Client
pub mod Producer
pub mod Posting
