-- ===== src/Sabcl.antt =====
-- The SABCL package (packages/sabcl): sealed envelopes, their padding and the recipient's checks.
pub mod Protocol
pub mod Bytes
pub mod Padding
pub mod Canonical
pub mod Replay
pub mod Recipient
pub mod Tests
