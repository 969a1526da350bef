-- ===== src/Ledger.antt =====
-- The Ledger service (services/ledger): accounts, immutable double-entry journals, balance
-- projections, idempotency records and customer transfers.
pub mod Schema
pub mod Money
pub mod Requests
pub mod Journal
pub mod Idempotency
pub mod Post
pub mod Transfer
pub mod Channel
pub mod Transactions
pub mod Reconciliation
pub mod Books
pub mod Tests
pub mod TransferTests
pub mod TransactionTests
pub mod ReconciliationTests
