-- ===== src/Payments/Schema.antt =====
-- services/payments/prisma/schema.prisma, as far as transfers use it, and the service's errors.
-- Identifiers, hashes, references and currencies are numbers; a bigint is an integer.
use aegis_shield_phase.Prelude.{ℕ, Option, List}
use aegis_shield_phase.Prelude.Int.{ℤ}

abbrev pub Ident : Type 0
Ident = ℕ

pub data TransferStatus : Type 0 where
  processing completed failed requires_review : TransferStatus

-- The codes that Payments stores and throws; `other_code` is a code of the Ledger that it does
-- not know, or none.
pub data FailureCode : Type 0 where
  insufficient_funds account_not_found account_not_active currency_mismatch : FailureCode
  self_transfer limit_exceeded intent_expired authorization_failed : FailureCode
  idempotency_conflict ledger_unavailable other_code : FailureCode

pub data TransferEventType : Type 0 where
  authorized processing_started ledger_posted completed_event failed_event : TransferEventType
  recovery_retry requires_review_event : TransferEventType

-- `PaymentsError` with its code, a refusal by the risk service, or an error of the database.
pub data PaymentsFailure : Type 0 where
  payments_error : FailureCode → PaymentsFailure
  risk_refused unique_violation : PaymentsFailure
  database_error schema_error : PaymentsFailure

pub record TransferIntent : Type 0 where
  pub id : Ident
  pub token_hash : Ident
  pub sender_customer_id : Ident
  pub source_account_id : Ident
  pub recipient_public_reference : Ident
  pub source_masked_reference : Ident
  pub recipient_masked_reference : Ident
  pub recipient_customer_id : Ident
  pub recipient_account_id : Ident
  pub currency : Ident
  pub amount_minor : ℤ
  pub source_balance_snapshot_minor : ℤ
  pub expires_at : ℕ
  pub authorized_at : Option ℕ
  pub consumed_at : Option ℕ

pub record Transfer : Type 0 where
  pub id : Ident
  pub display_reference : Ident
  pub sender_customer_id : Ident
  pub recipient_customer_id : Ident
  pub sender_account_id : Ident
  pub recipient_account_id : Ident
  pub sender_masked_reference : Ident
  pub recipient_masked_reference : Ident
  pub recipient_public_reference : Ident
  pub currency : Ident
  pub amount_minor : ℤ
  pub status : TransferStatus
  pub failure_code : Option FailureCode
  pub ledger_journal_id : Option Ident
  pub sender_posting_id : Option Ident
  pub recipient_posting_id : Option Ident
  pub sender_balance_after_minor : Option ℤ
  pub recipient_balance_after_minor : Option ℤ
  pub idempotency_key_hash : Ident
  pub request_hash : Ident
  pub intent_id : Ident
  pub correlation_id : Ident
  pub attempt_count : ℕ
  pub next_attempt_at : Option ℕ
  pub created_at : ℕ
  pub updated_at : ℕ
  pub completed_at : Option ℕ
  pub failed_at : Option ℕ

pub record TransferEvent : Type 0 where
  pub transfer_id : Ident
  pub event_type : TransferEventType
  pub previous_status : Option TransferStatus
  pub next_status : Option TransferStatus
  pub safe_code : Option FailureCode
  pub occurred_at : ℕ

pub record Db : Type 0 where
  pub intents : List TransferIntent
  pub transfers : List Transfer
  pub events : List TransferEvent
