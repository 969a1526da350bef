-- ===== src/Resilience.antt =====
-- The Resilience service (services/resilience): recovery drills and backup sets.
pub mod Schema
pub mod Drills
pub mod Reads
pub mod Tests
