-- ===== src/Websocket.antt =====
-- woody/websocket: frames, the frame parser, messages, the codec and the connection handler.
pub mod Frame
pub mod Parser
pub mod Message
pub mod Codec
pub mod Handler
pub mod Upgrade
pub mod Service
pub mod Application
