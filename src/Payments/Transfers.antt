-- ===== src/Payments/Transfers.antt =====
-- services/payments/src/transfers/transfers.service.ts: authorize and confirm.
-- The Ledger and the risk service answer over HTTP: their answers are parameters of the call, and
-- so are the hashes, the clock and what other sessions commit before the transaction.
pub mod Laws
pub mod Recovery
pub mod Intents
pub mod Views
pub mod Review
pub mod Attempts
pub mod Replay
pub mod Kept
use aegis_shield_phase.Prelude.{
  ℕ, Bool, true, false, not, ◌&&◌, ◌||◌, Option, none, some, List, [], ◌∷◌, ◌++◌, leb, ltb, ◌==◌,
  if◌then◌else◌, find, any, update_where, get_or, is_some, Result, ok, err, ◌>>=◌, ◌>>◌, throw_if,
  or_throw,
}
use aegis_shield_phase.Prelude.Int.{ℤ, pos, ◌+ℤ◌, ltb_ℤ}
use aegis_shield_phase.Payments.Schema.{
  Ident, TransferStatus, processing, completed, failed, requires_review, FailureCode,
  insufficient_funds, account_not_found, account_not_active, currency_mismatch, self_transfer,
  limit_exceeded, intent_expired, authorization_failed, idempotency_conflict, ledger_unavailable,
  other_code, authorized, processing_started, ledger_posted, completed_event, failed_event,
  PaymentsFailure, payments_error, risk_refused, unique_violation, schema_error, TransferIntent,
  Transfer, TransferEvent, Db,
}
use aegis_shield_phase.Payments.Calls.{
  CallEnv, LedgerFailure, LedgerTransferResult, RequestPayload, TransferConfirmation, event,
  ledger_call_error, other_exception, safe_failure,
}
use aegis_shield_phase.Payments.Transfers.Views.{TransferDetail, as_detail}
use aegis_shield_phase.Payments.Settlement.{
  completed_row, failed_row, failure_event, posted_event, settle, update_transfer,
}

abbrev pub find_intent : Ident → Ident → Db → Option TransferIntent
find_intent token_hash sender db =
    find (λ (i : TransferIntent). i.token_hash == token_hash && i.sender_customer_id == sender)
      db.intents

abbrev pub find_replay : Ident → Ident → Db → Option Transfer
find_replay sender key_hash db =
    find (λ (t : Transfer). t.sender_customer_id == sender && t.idempotency_key_hash == key_hash)
      db.transfers

-- `transfer.findFirst` by the intent, in `authorize`.
abbrev pub find_by_intent : Ident → Ident → Db → Option Transfer
find_by_intent intent_id sender db =
    find (λ (t : Transfer). t.intent_id == intent_id && t.sender_customer_id == sender) db.transfers

unfoldable pub authorize : ℕ → Ident → Ident → Db → Result PaymentsFailure (Unit {0}) × Db
authorize now sender token_hash db = elim (find_intent token_hash sender db) [
  | none ↦ (err (payments_error intent_expired), db)
  | some intent ↦ elim intent.consumed_at [
    | some _ ↦ (
      throw_if (not (is_some (find_by_intent intent.id sender db))) (payments_error intent_expired),
      db,
    )
    | none ↦ if leb intent.expires_at now then (err (payments_error intent_expired), db) else (
      ok tt,
      record db {
        intents =
            update_where (λ (i : TransferIntent). i.id == intent.id)
              (λ i. record i { authorized_at = some now }) db.intents;
      },
    )
  ]
]

abbrev pub request_payload : Ident → TransferIntent → RequestPayload
request_payload sender intent = record {
  sender_customer_id = sender;
  intent_id = intent.id;
  source_account_id = intent.source_account_id;
  recipient_account_id = intent.recipient_account_id;
  amount_minor = intent.amount_minor;
  currency = intent.currency;
}

-- `status: { in: ['PROCESSING', 'COMPLETED', 'REQUIRES_REVIEW'] }`
abbrev pub is_reserved : TransferStatus → Bool
is_reserved failed = false
is_reserved _ = true

abbrev pub counts_today : CallEnv → Ident → Transfer → Bool
counts_today env sender t =
    t.sender_customer_id == sender && is_reserved t.status && leb env.day_start t.created_at

-- `reserved._sum.amountMinor ?? 0n`
unfoldable pub reserved_sum : CallEnv → Ident → List Transfer → ℤ
reserved_sum env sender [] = pos 0
reserved_sum env sender (t ∷ ts) =
    let rest = reserved_sum env sender ts in
    if counts_today env sender t then t.amount_minor +ℤ rest else rest

abbrev pub new_transfer : CallEnv → TransferConfirmation → TransferIntent → Transfer
new_transfer env input intent = record {
  id = env.transfer_id;
  display_reference = env.display_reference;
  sender_customer_id = input.sender_customer_id;
  recipient_customer_id = intent.recipient_customer_id;
  sender_account_id = intent.source_account_id;
  recipient_account_id = intent.recipient_account_id;
  sender_masked_reference = intent.source_masked_reference;
  recipient_masked_reference = intent.recipient_masked_reference;
  recipient_public_reference = intent.recipient_public_reference;
  currency = intent.currency;
  amount_minor = intent.amount_minor;
  status = processing;
  failure_code = none;
  ledger_journal_id = none;
  sender_posting_id = none;
  recipient_posting_id = none;
  sender_balance_after_minor = none;
  recipient_balance_after_minor = none;
  idempotency_key_hash = input.key_hash;
  request_hash = env.canonical_hash (request_payload input.sender_customer_id intent);
  intent_id = intent.id;
  correlation_id = env.correlation_id;
  attempt_count = 0;
  next_attempt_at = none;
  created_at = env.now;
  updated_at = env.now;
  completed_at = none;
  failed_at = none;
}

pub record Prepared : Type 0 where
  pub row : Transfer
  pub replayed : Bool

-- The writes of the transaction: the transfer, its events, the consumed intent.
abbrev pub write_transfer : CallEnv → TransferConfirmation → TransferIntent → Db → Db
write_transfer env input intent tx = record {
  intents =
      update_where (λ (i : TransferIntent). i.id == intent.id)
        (λ i. record i { consumed_at = some env.now }) tx.intents;
  transfers = tx.transfers ++ new_transfer env input intent ∷ [];
  events =
      tx.events
      ++ event env env.transfer_id none
        ∷ record (event env env.transfer_id (some processing)) { event_type = processing_started }
        ∷ [];
}

-- The unique indexes on `intentId` and `displayReference`.
abbrev pub violates_unique : CallEnv → TransferIntent → Db → Bool
violates_unique env intent tx =
    any (λ (t : Transfer). t.intent_id == intent.id || t.display_reference == env.display_reference)
      tx.transfers

-- The transaction once no earlier transfer has the key.
unfoldable pub prepare_fresh :
    CallEnv → TransferConfirmation → TransferIntent → Db → Result PaymentsFailure (Prepared × Db)
unfolding reserved_sum
prepare_fresh env input intent tx = do
  throw_if
      (leb intent.expires_at env.now
        || is_some intent.consumed_at
        || not (is_some intent.authorized_at))
      (payments_error intent_expired)
  throw_if
      (ltb_ℤ env.daily_outgoing_limit_minor
        (reserved_sum env input.sender_customer_id tx.transfers +ℤ intent.amount_minor))
      (payments_error limit_exceeded)
  throw_if (violates_unique env intent tx) unique_violation
  ok (
    record { row = new_transfer env input intent; replayed = false },
    write_transfer env input intent tx,
  )

-- A transfer that the key already has is replayed, if it is of the same request.
abbrev pub replay_transfer :
    CallEnv → TransferConfirmation → TransferIntent → Transfer → Result PaymentsFailure Transfer
replay_transfer env input intent existing =
    if existing.request_hash == env.canonical_hash (request_payload input.sender_customer_id intent)
    then ok existing
    else err (payments_error idempotency_conflict)

unfoldable pub prepare :
    CallEnv → TransferConfirmation → Db → Result PaymentsFailure (Prepared × Db)
unfolding prepare_fresh
prepare env input tx = do
  intent ←
      or_throw (find_intent input.token_hash input.sender_customer_id tx)
        (payments_error intent_expired)
  elim (find_replay input.sender_customer_id input.key_hash tx) [
    | none ↦ prepare_fresh env input intent tx
    | some existing ↦ do
      row ← replay_transfer env input intent existing
      ok (record { row = row; replayed = true }, tx)
  ]

abbrev pub is_processing : TransferStatus → Bool
is_processing processing = true
is_processing _ = false

-- The row's view for the customer; one that its schema refuses is an error, the writes stay.
abbrev pub shown :
    CallEnv
    → Ident
    → Result PaymentsFailure Transfer × Db
    → Result PaymentsFailure TransferDetail × Db
shown env customer (err e, db) = (err e, db)
shown env customer (ok row, db) = (or_throw (as_detail env.formats row customer) schema_error, db)

-- The end of `confirm`: a fresh transfer in PROCESSING is settled.
unfoldable pub settle_prepared :
    CallEnv
    → Ident
    → Db
    → Result PaymentsFailure (Prepared × Db)
    → Result PaymentsFailure TransferDetail × Db
unfolding settle as_detail
settle_prepared env customer db (err e) = (err e, db)
settle_prepared env customer db (ok (prepared, tx)) =
    let settled = settle env prepared.row tx in
    if prepared.replayed || not (is_processing prepared.row.status)
    then shown env customer (ok prepared.row, tx)
    else shown env customer settled

unfoldable pub confirm :
    CallEnv → TransferConfirmation → Db → Result PaymentsFailure TransferDetail × Db
unfolding prepare settle_prepared as_detail
confirm env input db = elim (find_intent input.token_hash input.sender_customer_id db) [
  | none ↦ (err (payments_error authorization_failed), db)
  | some preflight ↦
      if not (is_some preflight.authorized_at)
      then (err (payments_error authorization_failed), db)
      else elim (find_replay input.sender_customer_id input.key_hash db) [
        | some existing ↦
            shown env input.sender_customer_id (replay_transfer env input preflight existing, db)
        | none ↦ elim (env.enforce preflight) [
          | err e ↦ (err e, db)
          | ok _ ↦
              settle_prepared env input.sender_customer_id (env.before_transaction db)
                (prepare env input (env.before_transaction db))
        ]
      ]
]
