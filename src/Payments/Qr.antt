-- ===== src/Payments/Qr.antt =====
-- services/payments/src/qr: QR payments, their codes, redemptions and settlement.
pub mod Schema
pub mod Codes
pub mod Env
pub mod Issue
pub mod Collisions
pub mod Preview
pub mod Confirm
pub mod Steps
