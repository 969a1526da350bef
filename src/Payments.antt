-- ===== src/Payments.antt =====
-- The Payments service (services/payments): transfer intents, their confirmation and settlement.
pub mod Schema
pub mod Calls
pub mod Settlement
pub mod Transfers
pub mod Qr
pub mod Tests
pub mod QrTests
