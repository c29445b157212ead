-- ===== src/Protocol.antt =====
-- internal/protocol: the wire format, the handshake messages and the replay window.
pub mod Bytes
pub mod Header
pub mod Payload
pub mod Ip
pub mod Aead
pub mod Keys
pub mod Replay
pub mod Hello
pub mod Welcome
mod Tests
