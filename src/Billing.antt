-- ===== src/Billing.antt =====
-- internal/billing.
pub mod Usage
pub mod Recorder
pub mod Ledger
pub mod Prices
mod Tests
