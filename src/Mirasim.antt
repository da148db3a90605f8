-- ===== src/Mirasim.antt =====
-- internal/mirasim.
pub mod Client
pub mod Crypto
pub mod Device
pub mod Request
pub mod Toy
mod Tests
