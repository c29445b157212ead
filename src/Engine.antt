-- ===== src/Engine.antt =====
-- internal/engine/server.go: the relay's clients, sessions and paths.
pub mod State
pub mod Registry
pub mod Credentials
pub mod Paths
pub mod Startup
pub mod Packets
pub mod Events
pub mod Handshake
mod Tests
