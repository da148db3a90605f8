-- ===== src/Pool.antt =====
-- internal/pool.
pub mod Entry
pub mod Report
pub mod Sticky
pub mod Pick
pub mod Slots
pub mod Reload
pub mod Stats
pub mod Choice
pub mod Spares
pub mod Affinity
pub mod Quota
pub mod Cooldown
mod Tests
