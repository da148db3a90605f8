-- ===== src/Gateway.antt =====
-- internal/gateway.
pub mod Response
pub mod Slots
pub mod Auth
pub mod Stream
pub mod Attempt
pub mod Normalize
pub mod Forward
pub mod RateLimit
pub mod Handler
mod Tests
