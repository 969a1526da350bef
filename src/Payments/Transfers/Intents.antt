-- ===== src/Payments/Transfers/Intents.antt =====
-- transfers.service.ts `createIntent` and `policy`.
-- The amount is what `lkrAmountToMinorUnits` reads; the Ledger's preview and the token are parameters.
use aegis_shield_phase.Prelude.{
  ℕ, ◌+◌, ◌*◌, ◌||◌, none, [], ◌∷◌, ◌++◌, ◌==◌, if◌then◌else◌, any, Result, ok, err, ◌>>=◌, ◌>>◌,
  throw_if,
}
use aegis_shield_phase.Prelude.Int.{ℤ, ltb_ℤ, leb_ℤ}
use aegis_shield_phase.Payments.Schema.{
  Ident, limit_exceeded, account_not_found, self_transfer, PaymentsFailure, payments_error,
  unique_violation, TransferIntent, Db,
}
use aegis_shield_phase.Payments.Calls.{LedgerFailure, ledger_call_error, other_exception}

pub record TransferPolicy : Type 0 where
  pub minimum : ℤ
  pub maximum : ℤ
  pub daily_outgoing_maximum : ℤ

pub record InternalTransferPreviewResult : Type 0 where
  pub source_account_id : Ident
  pub recipient_account_id : Ident
  pub recipient_customer_id : Ident
  pub source_masked_reference : Ident
  pub recipient_masked_reference : Ident
  pub currency : Ident
  pub source_balance : ℤ

pub record IntentRequest : Type 0 where
  pub sender_customer_id : Ident
  pub source_account_id : Ident
  pub recipient_reference : Ident
  pub amount_minor : ℤ

-- `PaymentsError`s of the Ledger's client pass through as `refused`.
pub record IntentEnv : Type 0 where
  pub now : ℕ
  pub policy : TransferPolicy
  pub intent_ttl_seconds : ℕ
  pub token : Ident
  pub sha256 : Ident → Ident
  pub new_id : Ident
  pub refused : PaymentsFailure
  pub ledger_preview : IntentRequest → Result LedgerFailure InternalTransferPreviewResult

pub data RiskEventType : Type 0 where
  high_value_transfer transfer_preview : RiskEventType

pub record RiskEvent : Type 0 where
  pub event_type : RiskEventType
  pub subject_id : Ident
  pub account_id : Ident
  pub recipient_id : Ident
  pub amount_minor : ℤ
  pub currency : Ident

pub record TransferPreviewResponse : Type 0 where
  pub intent_token : Ident
  pub source_masked_reference : Ident
  pub recipient_masked_reference : Ident
  pub currency : Ident
  pub amount_minor : ℤ
  pub source_balance : ℤ
  pub policy : TransferPolicy
  pub expires_at : ℕ

abbrev pub assert_amount : TransferPolicy → ℤ → Result PaymentsFailure (Unit {0})
assert_amount policy amount =
    throw_if (ltb_ℤ amount policy.minimum || ltb_ℤ policy.maximum amount)
      (payments_error limit_exceeded)

-- Every `LedgerCallError` is answered with `ACCOUNT_NOT_FOUND`.
abbrev pub preview_failure : IntentEnv → LedgerFailure → PaymentsFailure
preview_failure env (ledger_call_error status code) = payments_error account_not_found
preview_failure env other_exception = env.refused

abbrev pub ledger_preview_of :
    IntentEnv → IntentRequest → Result PaymentsFailure InternalTransferPreviewResult
ledger_preview_of env input = elim (env.ledger_preview input) [
  | ok preview ↦ ok preview
  | err failure ↦ err (preview_failure env failure)
]

abbrev pub new_intent : IntentEnv → IntentRequest → InternalTransferPreviewResult → TransferIntent
new_intent env input preview = record {
  id = env.new_id;
  token_hash = env.sha256 env.token;
  sender_customer_id = input.sender_customer_id;
  source_account_id = preview.source_account_id;
  recipient_public_reference = input.recipient_reference;
  source_masked_reference = preview.source_masked_reference;
  recipient_masked_reference = preview.recipient_masked_reference;
  recipient_customer_id = preview.recipient_customer_id;
  recipient_account_id = preview.recipient_account_id;
  currency = preview.currency;
  amount_minor = input.amount_minor;
  source_balance_snapshot_minor = preview.source_balance;
  expires_at = env.now + env.intent_ttl_seconds * 1000;
  authorized_at = none;
  consumed_at = none;
}

abbrev pub risk_event : IntentEnv → IntentRequest → InternalTransferPreviewResult → RiskEvent
risk_event env input preview = record {
  event_type =
      if leb_ℤ env.policy.maximum input.amount_minor then high_value_transfer else transfer_preview;
  subject_id = input.sender_customer_id;
  account_id = preview.source_account_id;
  recipient_id = input.recipient_reference;
  amount_minor = input.amount_minor;
  currency = preview.currency;
}

abbrev pub preview_response :
    IntentEnv → IntentRequest → InternalTransferPreviewResult → TransferPreviewResponse
preview_response env input preview = record {
  intent_token = env.token;
  source_masked_reference = preview.source_masked_reference;
  recipient_masked_reference = preview.recipient_masked_reference;
  currency = preview.currency;
  amount_minor = input.amount_minor;
  source_balance = preview.source_balance;
  policy = env.policy;
  expires_at = env.now + env.intent_ttl_seconds * 1000;
}

-- The response, the event that is emitted, and the tables with the intent.
unfoldable pub create_intent :
    IntentEnv
    → IntentRequest
    → Db
    → Result PaymentsFailure (TransferPreviewResponse × RiskEvent × Db)
create_intent env input db = do
  assert_amount env.policy input.amount_minor
  preview ← ledger_preview_of env input
  throw_if (preview.source_account_id == preview.recipient_account_id)
      (payments_error self_transfer)
  throw_if (any (λ (i : TransferIntent). i.token_hash == env.sha256 env.token) db.intents)
      unique_violation
  ok (
    preview_response env input preview,
    risk_event env input preview,
    record db { intents = db.intents ++ new_intent env input preview ∷ [] },
  )
