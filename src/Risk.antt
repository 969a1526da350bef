-- ===== src/Risk.antt =====
-- The Risk service (services/risk): the scoring of an operation.
pub mod Engine
pub mod Tests
