-- ===== src/Lib.antt =====
-- Aegis Shield: mobile money with a double-entry ledger, risk scoring and recovery drills.
--
-- The services talk over HTTP. Payments asks Risk to score an operation and the Ledger to move the
-- money; the Ledger is the only writer of balances; Resilience keeps the evidence of recovery
-- drills. Each service owns its tables, so each model has a record of its own tables, and an
-- operation is a function from the tables to a result and the tables after it.
--
-- - Prelude: shared names, lists over native numbers, integers, results of calls that may throw.
-- - Ledger (services/ledger):
--     Schema     the rows (prisma/schema.prisma) and the errors (src/common/errors)
--     Money      src/money/money.ts: parseMinorUnits, serializeMinorUnits, signedBalanceMinor
--     Requests   src/ledger/journal.service.ts: its inputs and the locked rows
--     Journal    src/ledger/journal.service.ts: the checks of a journal and its transaction
--     Idempotency src/idempotency/idempotency.service.ts: execute
--     Post       JournalService.post, the two above composed
--     Transfer   src/transfers/customer-transfer.service.ts: resolve, preview, transfer
--     Channel    src/channels/channel-operations.service.ts: qrPayment, agentCashIn, agentCashOut
--     Transactions src/transactions/transaction.service.ts: history, list, detail
--     Reconciliation src/reconciliation/reconciliation.service.ts: run, latest
-- - Risk (services/risk): Engine is src/assessments/risk-engine.ts.
-- - Resilience (services/resilience): Schema is its rows, Drills and Reads are
--   src/drills/drill.service.ts.
-- - Payments (services/payments): Schema is its rows. Of src/transfers/transfers.service.ts, Calls is
--   the inputs, Transfers authorize and confirm, Settlement settle, Transfers/Intents createIntent,
--   Transfers/Recovery recover, Transfers/Views list, detail and their views.
--   Qr is src/qr: Codes is qr-crypto.ts; Issue, Preview and Confirm are the operations of
--   qr.service.ts, with Confirm/Settle and Confirm/Reads; Steps puts them in any order.
-- - Sabcl (packages/sabcl): sealed envelopes between the services. Protocol is src/protocol/version.ts,
--   errors.ts and the fields of envelope.ts; Padding is padding.ts, Canonical is canonical.ts and the
--   header of a request, Replay is src/replay, with what a store promises, and Recipient is
--   src/server/sabcl-recipient.ts with openRequest of src/protocol/seal.ts.
--
-- Reading the model. Identifiers, currencies, references, hashes and texts that are only compared or
-- stored are numbers, in the order of the texts they stand for; an amount in a request to the Ledger
-- is the list of its character codes, and a buffer is the list of its bytes. A bigint is an integer without bound, a date is a number. A table is a list in
-- the order of insertion. A thrown error is the `err` of a result. A transaction that throws leaves
-- the tables as they were when it began. What concurrent sessions commit between two statements of
-- `execute` is a function on the tables, and a theorem that needs something of it says so. Hashes,
-- signatures, ciphers, JSON, clocks, schema parsers (but those of a
-- journal's result and of a transfer's view), generated identifiers and the answers of the
-- other services are parameters. Each loop of the source goes over a
-- list, and is a recursion on that list. Two definitions run on fuel: emit_digits of Ledger.Money, the
-- digits of n, with n as its fuel, which Ledger.Money.RoundTrip shows to be enough; and collect of
-- Ledger.Transactions.Pages, a client's requests for pages, whose bound its theorem states.
--
-- Not modelled: HTTP controllers, guards and configuration; the Prisma client and the database's own
-- triggers, apart from the unique constraints that the code relies on; the web application; sealing
-- and the router of Sabcl; the services and modules that the modules above do not name.
pub mod Prelude
pub mod Ledger
pub mod Risk
pub mod Sabcl
pub mod Resilience
pub mod Payments
