-- ===== src/Payments/Calls.antt =====
-- transfers.service.ts: the inputs of its calls, and the answers of the Ledger and of risk.
use aegis_shield_phase.Prelude.{ℕ, Bool, Option, none, Result}
use aegis_shield_phase.Prelude.Int.{ℤ}
use aegis_shield_phase.Payments.Schema.{
  Ident, TransferStatus, FailureCode, insufficient_funds, account_not_found, account_not_active,
  currency_mismatch, self_transfer, limit_exceeded, intent_expired, authorization_failed,
  idempotency_conflict, ledger_unavailable, authorized, PaymentsFailure, TransferIntent, Transfer,
  TransferEvent, Db,
}

-- What `canonicalHash` is taken of.
pub record RequestPayload : Type 0 where
  pub sender_customer_id : Ident
  pub intent_id : Ident
  pub source_account_id : Ident
  pub recipient_account_id : Ident
  pub amount_minor : ℤ
  pub currency : Ident

pub record LedgerTransferResult : Type 0 where
  pub journal_id : Ident
  pub sender_posting_id : Ident
  pub recipient_posting_id : Ident
  pub sender_balance_after : ℤ
  pub recipient_balance_after : ℤ

-- A `LedgerCallError` with its status and code, or another exception.
pub data LedgerFailure : Type 0 where
  ledger_call_error : ℕ → FailureCode → LedgerFailure
  other_exception : LedgerFailure

-- The regular expressions of `transferDetailSchema`, on texts that are numbers here.
pub record DetailFormats : Type 0 where
  pub is_display_reference : Ident → Bool
  pub is_masked_reference : Ident → Bool

-- `update_fails`: the database throws at the settlement's update of the row.
pub record CallEnv : Type 0 where
  pub formats : DetailFormats
  pub update_fails : Transfer → Bool
  pub now : ℕ
  pub day_start : ℕ
  pub daily_outgoing_limit_minor : ℤ
  pub canonical_hash : RequestPayload → Ident
  pub transfer_id : Ident
  pub display_reference : Ident
  pub correlation_id : Ident
  pub enforce : TransferIntent → Result PaymentsFailure (Unit {0})
  pub ledger_transfer : Transfer → Result LedgerFailure LedgerTransferResult
  pub before_transaction : Db → Db

-- `key_hash` and `token_hash` are the hashes of the key and the token.
pub record TransferConfirmation : Type 0 where
  pub sender_customer_id : Ident
  pub key_hash : Ident
  pub token_hash : Ident

abbrev pub safe_failure : FailureCode → FailureCode
safe_failure insufficient_funds = insufficient_funds
safe_failure account_not_found = account_not_found
safe_failure account_not_active = account_not_active
safe_failure currency_mismatch = currency_mismatch
safe_failure self_transfer = self_transfer
safe_failure limit_exceeded = limit_exceeded
safe_failure intent_expired = intent_expired
safe_failure authorization_failed = authorization_failed
safe_failure idempotency_conflict = idempotency_conflict
safe_failure _ = ledger_unavailable

abbrev pub event : CallEnv → Ident → Option TransferStatus → TransferEvent
event env id next = record {
  transfer_id = id;
  event_type = authorized;
  previous_status = none;
  next_status = next;
  safe_code = none;
  occurred_at = env.now;
}
