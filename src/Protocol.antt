-- ===== src/Protocol.antt =====
-- src/protocol.rs: the bounded messages on the private sockets.
pub mod Error
pub mod Frames
pub mod Request
pub mod Cache
pub mod Wire
pub mod Renderer
mod Tests
