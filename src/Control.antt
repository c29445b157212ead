-- ===== src/Control.antt =====
-- The control plane of internal/controlplane.
pub mod Bucket
pub mod Pool
pub mod Secret
pub mod Store
pub mod Limiter
pub mod Service
mod Tests
