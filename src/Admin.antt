-- ===== src/Admin.antt =====
-- internal/admin.
pub mod Summary
pub mod Access
pub mod Accounts
pub mod Keys
pub mod Flows
pub mod Pages
pub mod Links
pub mod Oauth
pub mod Usage
mod Tests
