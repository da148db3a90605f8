-- ===== src/Store.antt =====
-- internal/store.
pub mod Rows
pub mod Database
pub mod Settings
pub mod Accounts
pub mod Device
pub mod Keys
pub mod Logs
mod Tests
