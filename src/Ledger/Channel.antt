-- ===== src/Ledger/Channel.antt =====
-- services/ledger/src/channels/channel-operations.service.ts: QR payments and agent cash.
use aegis_shield_phase.Prelude.{
  Bool, true, false, not, ◌||◌, Option, none, some, ◌==◌, ◌&&◌, find, Result, ok, err, ◌>>=◌, ◌>>◌,
  throw_if, or_throw,
}
use aegis_shield_phase.Prelude.Int.{pos, ltb_ℤ, leb_ℤ}
use aegis_shield_phase.Ledger.Schema.{
  Ident, Chars, SystemAccountType, agent_float, JournalEntryType, qr_payment, agent_cash_in,
  agent_cash_out, Failure, ledger_error, internal_error, currency_mismatch, account_not_found_error,
  account_not_active_error, insufficient_funds_error, LedgerAccount, CustomerAccount, JournalResult,
  Db, is_active,
}
use aegis_shield_phase.Ledger.Money.{big_int}
use aegis_shield_phase.Ledger.Requests.{InternalJournalRequest}
use aegis_shield_phase.Ledger.Post.{PostCall, post}
use aegis_shield_phase.Ledger.Transfer.{
  account_by_reference, balance, two_lines, TransferTexts, payments_actor, self_transfer_error,
  invalid_request_error,
}

pub record ResolvedAccount : Type 0 where
  pub account_id : Ident
  pub customer_id : Ident
  pub masked_reference : Ident

pub record QrPaymentInput : Type 0 where
  pub source_account_id : Ident
  pub recipient_account_id : Ident
  pub currency : Ident
  pub amount_minor : Chars
  pub transfer_reference : Ident
  pub transfer_id : Ident
  pub idempotency_key : Ident

pub record AgentCashInput : Type 0 where
  pub customer_account_id : Ident
  pub currency : Ident
  pub amount_minor : Chars
  pub operation_reference : Ident
  pub operation_id : Ident
  pub agent_id : Ident
  pub idempotency_key : Ident

unfoldable pub resolve_account_by_reference : Ident → Db → Result Failure ResolvedAccount
resolve_account_by_reference reference db = do
  account ← or_throw (account_by_reference reference db) account_not_found_error
  ok (record {
    account_id = account.id;
    customer_id = account.customer_id;
    masked_reference = account.masked_reference;
  })

unfoldable pub get_customer_account : Ident → Db → Result Failure CustomerAccount
get_customer_account id db = do
  account ←
      or_throw (find (λ (a : CustomerAccount). a.id == id) db.customer_accounts)
        account_not_found_error
  throw_if (not (is_active account.status)) account_not_active_error
  ok account

abbrev is_agent_float : Option SystemAccountType → Bool
is_agent_float (some agent_float) = true
is_agent_float _ = false

-- `getSystemAccount('AGENT_FLOAT', currency)`
unfoldable pub get_agent_float : Ident → Db → Result Failure LedgerAccount
get_agent_float currency db =
    or_throw
      (find (λ (a : LedgerAccount). is_agent_float a.system_account_type && a.currency == currency)
        db.ledger_accounts)
      (ledger_error (record { code = internal_error; status = 500 }))

abbrev pub qr_currency_error : Failure
qr_currency_error = ledger_error (record { code = currency_mismatch; status = 409 })

abbrev pub channel_request :
    JournalEntryType
    → TransferTexts
    → Ident
    → Ident
    → Ident
    → Chars
    → Ident
    → Ident
    → Ident
    → Ident
    → InternalJournalRequest
channel_request entry_type texts reference currency key amount from to id other = record {
  reference = some reference;
  entry_type = entry_type;
  currency = currency;
  description = some texts.description;
  idempotency_key = key;
  postings = two_lines from to amount;
  effective_at = none;
  metadata = some (texts.metadata id other);
}

-- `{ journalId: journal.id }`, with the tables after the call.
abbrev pub journal_id_of : Result Failure JournalResult × Db → Result Failure Ident × Db
journal_id_of (ok journal, db) = (ok journal.id, db)
journal_id_of (err e, db) = (err e, db)

-- An admitted request is posted, and a refused one leaves the tables alone.
pub post_admitted :
    PostCall
    → TransferTexts
    → Ident
    → Result Failure InternalJournalRequest
    → Db
    → Result Failure Ident × Db
unfolding post
post_admitted call texts correlation_id (err e) db = (err e, db)
post_admitted call texts correlation_id (ok request) db =
    journal_id_of (post call request correlation_id (payments_actor texts) db)

pub admit_qr_payment : TransferTexts → QrPaymentInput → Db → Result Failure InternalJournalRequest
unfolding get_customer_account balance
admit_qr_payment texts input db = do
  source ← get_customer_account input.source_account_id db
  recipient ← get_customer_account input.recipient_account_id db
  throw_if (source.id == recipient.id) self_transfer_error
  throw_if (not (source.currency == recipient.currency) || not (source.currency == input.currency))
      qr_currency_error
  throw_if (leb_ℤ (big_int input.amount_minor) (pos 0)) invalid_request_error
  available ← balance source db
  throw_if (ltb_ℤ available (big_int input.amount_minor)) insufficient_funds_error
  ok (
      channel_request qr_payment texts input.transfer_reference input.currency input.idempotency_key
        input.amount_minor source.ledger_account_id recipient.ledger_account_id input.transfer_id
        input.transfer_id)

unfoldable pub qr_payment_call :
    PostCall → TransferTexts → QrPaymentInput → Ident → Db → Result Failure Ident × Db
unfolding admit_qr_payment post_admitted
qr_payment_call call texts input correlation_id db =
    post_admitted call texts correlation_id (admit_qr_payment texts input db) db

-- Cash in: the float is debited and the customer credited.
pub admit_cash_in : TransferTexts → AgentCashInput → Db → Result Failure InternalJournalRequest
unfolding get_customer_account get_agent_float
admit_cash_in texts input db = do
  customer ← get_customer_account input.customer_account_id db
  float ← get_agent_float input.currency db
  throw_if (leb_ℤ (big_int input.amount_minor) (pos 0)) invalid_request_error
  ok (
      channel_request agent_cash_in texts input.operation_reference input.currency
        input.idempotency_key input.amount_minor float.id customer.ledger_account_id
        input.operation_id input.agent_id)

unfoldable pub agent_cash_in_call :
    PostCall → TransferTexts → AgentCashInput → Ident → Db → Result Failure Ident × Db
unfolding admit_cash_in post_admitted
agent_cash_in_call call texts input correlation_id db =
    post_admitted call texts correlation_id (admit_cash_in texts input db) db

-- Cash out: the customer is debited and the float credited.
pub admit_cash_out : TransferTexts → AgentCashInput → Db → Result Failure InternalJournalRequest
unfolding get_customer_account get_agent_float balance
admit_cash_out texts input db = do
  customer ← get_customer_account input.customer_account_id db
  float ← get_agent_float input.currency db
  throw_if (leb_ℤ (big_int input.amount_minor) (pos 0)) invalid_request_error
  available ← balance customer db
  throw_if (ltb_ℤ available (big_int input.amount_minor)) insufficient_funds_error
  ok (
      channel_request agent_cash_out texts input.operation_reference input.currency
        input.idempotency_key input.amount_minor customer.ledger_account_id float.id
        input.operation_id input.agent_id)

unfoldable pub agent_cash_out_call :
    PostCall → TransferTexts → AgentCashInput → Ident → Db → Result Failure Ident × Db
unfolding admit_cash_out post_admitted
agent_cash_out_call call texts input correlation_id db =
    post_admitted call texts correlation_id (admit_cash_out texts input db) db
