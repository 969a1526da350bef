-- ===== src/Payments/Qr/Schema.antt =====
-- services/payments/prisma/schema.prisma: the models of QR payments, and the errors of qr.service.ts.
-- Identifiers, references and hashes are numbers; tokens, nonces and amounts in a code are texts.
use aegis_shield_phase.Prelude.{ℕ, Option, List}
use aegis_shield_phase.Prelude.Int.{ℤ}
use aegis_shield_phase.Payments.Schema.{Ident, FailureCode}
use aegis_shield_phase.Payments.Calls.{LedgerFailure}

abbrev pub Chars : Type 0
Chars = List ℕ

pub data QrType : Type 0 where
  static dynamic : QrType

pub data QrPaymentRequestStatus : Type 0 where
  active redeemed expired cancelled : QrPaymentRequestStatus

pub data QrPaymentStatus : Type 0 where
  processing completed failed : QrPaymentStatus

pub data QrPaymentEventType : Type 0 where
  qr_issued qr_scanned completed_event failed_event : QrPaymentEventType

-- A status that an event tells.
pub data EventStatus : Type 0 where
  request_status : QrPaymentRequestStatus → EventStatus
  payment_status : QrPaymentStatus → EventStatus

pub record QrPaymentRequest : Type 0 where
  pub id : Ident
  pub type : QrType
  pub status : QrPaymentRequestStatus
  pub recipient_customer_id : Ident
  pub recipient_account_id : Ident
  pub recipient_masked_reference : Ident
  pub recipient_public_reference : Ident
  pub currency : Chars
  pub amount_minor : Option ℤ
  pub purpose : Option Chars
  pub nonce_hash : Ident
  pub signature_hash : Ident
  pub protocol_version : ℕ
  pub expires_at : ℕ
  pub redeemed_at : Option ℕ

pub record QrRedemption : Type 0 where
  pub id : Ident
  pub qr_payment_request_id : Ident
  pub display_reference : Ident
  pub sender_customer_id : Ident
  pub sender_account_id : Ident
  pub sender_masked_reference : Ident
  pub recipient_customer_id : Ident
  pub recipient_account_id : Ident
  pub recipient_masked_reference : Ident
  pub currency : Chars
  pub amount_minor : ℤ
  pub status : QrPaymentStatus
  pub intent_token_hash : Ident
  pub idempotency_key_hash : Ident
  pub request_hash : Ident
  pub ledger_journal_id : Option Ident
  pub sender_balance_after_minor : Option ℤ
  pub recipient_balance_after_minor : Option ℤ
  pub correlation_id : Ident
  pub created_at : ℕ
  pub completed_at : Option ℕ
  pub failed_at : Option ℕ

pub record QrPaymentEvent : Type 0 where
  pub qr_payment_request_id : Ident
  pub event_type : QrPaymentEventType
  pub previous_status : Option EventStatus
  pub next_status : Option EventStatus
  pub safe_code : Option FailureCode
  pub occurred_at : ℕ

pub record QrDb : Type 0 where
  pub requests : List QrPaymentRequest
  pub redemptions : List QrRedemption
  pub events : List QrPaymentEvent

pub data QrErrorCode : Type 0 where
  qr_invalid qr_unsupported_version qr_invalid_signature qr_expired : QrErrorCode
  qr_invalid_currency qr_invalid_amount qr_already_redeemed : QrErrorCode
  self_transfer account_not_found transfer_not_found idempotency_conflict : QrErrorCode

-- `PaymentsError` with its code, an exception of the Ledger's client, a text that `BigInt` does not
-- read, a violated unique index, or a required relation without its row.
pub data QrFailure : Type 0 where
  qr_error : QrErrorCode → QrFailure
  ledger_failure : LedgerFailure → QrFailure
  syntax_error unique_violation missing_relation : QrFailure

pub record AccountDetail : Type 0 where
  pub masked_reference : Ident
  pub receiving_reference : Ident
