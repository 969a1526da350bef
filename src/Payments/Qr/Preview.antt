-- ===== src/Payments/Qr/Preview.antt =====
-- qr.service.ts `preview`.
use aegis_shield_phase.Prelude.{
  ℕ, Bool, true, false, not, ◌&&◌, ◌||◌, Option, none, some, [], ◌∷◌, ◌++◌, ◌==◌, leb,
  if◌then◌else◌, any, find, Result, ok, err, ◌>>=◌, ◌>>◌, throw_if, or_throw,
}
use aegis_shield_phase.Prelude.Int.{ℤ, pos, leb_ℤ, eqb_ℤ}
use aegis_shield_phase.Payments.Schema.{Ident}
use aegis_shield_phase.Payments.Qr.Schema.{
  Chars, QrType, static, dynamic, QrPaymentRequestStatus, redeemed, expired, cancelled, processing,
  qr_scanned, QrPaymentRequest, QrRedemption, QrPaymentEvent, AccountDetail, QrDb, qr_invalid,
  qr_unsupported_version, qr_invalid_signature, qr_expired, qr_invalid_currency, qr_invalid_amount,
  qr_already_redeemed, self_transfer, account_not_found, QrFailure, qr_error, syntax_error,
  unique_violation,
}
use aegis_shield_phase.Payments.Qr.Codes.{
  SignedQrPayload, qr_protocol_version, same_chars, verify_qr_signature,
}
use aegis_shield_phase.Payments.Qr.Env.{QrEnv}

pub record PreviewInput : Type 0 where
  pub payload : Chars
  pub sender_customer_id : Ident
  pub source_account_id : Ident

-- `{ currency, minorUnits }`
pub record Shown : Type 0 where
  pub currency : Chars
  pub minor_units : ℤ

pub record QrPreview : Type 0 where
  pub qr_id : Ident
  pub recipient_masked_reference : Ident
  pub amount : Option Shown
  pub purpose : Option Chars
  pub type : QrType
  pub expires_at : ℕ
  pub intent_token : Chars

-- `amount ? { ... } : null`: zero is shown as no amount.
abbrev pub shown_amount : Chars → Option ℤ → Option Shown
shown_amount currency none = none
shown_amount currency (some amount) =
    if eqb_ℤ amount (pos 0)
    then none
    else some (record { currency = currency; minor_units = amount })

abbrev pub lkr : Chars
lkr = b'L' ∷ b'K' ∷ b'R' ∷ []

-- A text that is no date is after every time.
abbrev pub is_past : QrEnv → Chars → Bool
is_past env text = elim (env.parse_date text) [ none ↦ false | some time ↦ leb time env.now ]

abbrev pub check_amount : QrEnv → Option Chars → Result QrFailure (Unit {0})
check_amount env none = ok tt
check_amount env (some text) = elim (env.big_int text) [
  | none ↦ err syntax_error
  | some amount ↦ throw_if (leb_ℤ amount (pos 0)) (qr_error qr_invalid_amount)
]

abbrev pub is_dynamic : QrType → Bool
is_dynamic dynamic = true
is_dynamic static = false

abbrev pub is_redeemed : QrPaymentRequestStatus → Bool
is_redeemed redeemed = true
is_redeemed _ = false

abbrev pub is_withdrawn : QrPaymentRequestStatus → Bool
is_withdrawn expired = true
is_withdrawn cancelled = true
is_withdrawn _ = false

abbrev pub find_by_nonce : Ident → QrDb → Option QrPaymentRequest
find_by_nonce nonce_hash db =
    find (λ (q : QrPaymentRequest). q.nonce_hash == nonce_hash) db.requests

-- The checks of the code itself.
unfoldable pub check_code : QrEnv → SignedQrPayload → Result QrFailure (Unit {0})
unfolding verify_qr_signature
check_code env decoded = do
  throw_if (not (decoded.data_of.version == qr_protocol_version)) (qr_error qr_unsupported_version)
  throw_if (not (verify_qr_signature env.signing decoded)) (qr_error qr_invalid_signature)
  throw_if (is_past env decoded.data_of.expires_at) (qr_error qr_expired)
  throw_if (not (same_chars decoded.data_of.currency lkr)) (qr_error qr_invalid_currency)
  check_amount env decoded.data_of.amount_minor

-- The checks of the stored request.
unfoldable pub check_request : PreviewInput → QrPaymentRequest → Result QrFailure (Unit {0})
check_request input qr = do
  throw_if (is_dynamic qr.type && is_redeemed qr.status) (qr_error qr_already_redeemed)
  throw_if (is_withdrawn qr.status) (qr_error qr_expired)
  throw_if (qr.recipient_customer_id == input.sender_customer_id) (qr_error self_transfer)

abbrev pub sending_account : QrEnv → PreviewInput → Result QrFailure AccountDetail
sending_account env input =
    elim (env.account_detail input.source_account_id input.sender_customer_id) [
      | ok detail ↦ ok detail
      | err failure ↦ err (qr_error account_not_found)
    ]

-- `decoded.amountMinor || '0'`
abbrev pub or_zero : Option Chars → Chars
or_zero (some (c ∷ cs)) = c ∷ cs
or_zero _ = b'0' ∷ []

-- `qrRecord.amountMinor ?? BigInt(...)`
abbrev pub redemption_amount : QrEnv → QrPaymentRequest → Option Chars → Result QrFailure ℤ
redemption_amount env qr text = elim qr.amount_minor [
  | some amount ↦ ok amount
  | none ↦ or_throw (env.big_int (or_zero text)) syntax_error
]

-- `temp-${intentToken}` and `pending`
abbrev pub temporary : Chars → Chars
temporary token = b't' ∷ b'e' ∷ b'm' ∷ b'p' ∷ b'-' ∷ token

abbrev pub pending : Chars
pending = b'p' ∷ b'e' ∷ b'n' ∷ b'd' ∷ b'i' ∷ b'n' ∷ b'g' ∷ []

abbrev pub new_redemption :
    QrEnv → PreviewInput → QrPaymentRequest → AccountDetail → ℤ → QrRedemption
new_redemption env input qr detail amount = record {
  id = env.new_id;
  qr_payment_request_id = qr.id;
  display_reference = env.display_reference;
  sender_customer_id = input.sender_customer_id;
  sender_account_id = input.source_account_id;
  sender_masked_reference = detail.masked_reference;
  recipient_customer_id = qr.recipient_customer_id;
  recipient_account_id = qr.recipient_account_id;
  recipient_masked_reference = qr.recipient_masked_reference;
  currency = qr.currency;
  amount_minor = amount;
  status = processing;
  intent_token_hash = env.sha256 env.intent_token;
  idempotency_key_hash = env.sha256 (temporary env.intent_token);
  request_hash = env.sha256 pending;
  ledger_journal_id = none;
  sender_balance_after_minor = none;
  recipient_balance_after_minor = none;
  correlation_id = env.correlation_id;
  created_at = env.now;
  completed_at = none;
  failed_at = none;
}

-- The unique indexes of `qr_redemptions`: the request, the reference, the token's hash, and the
-- sender with the key's hash.
abbrev pub clashes : QrRedemption → QrRedemption → Bool
clashes new r =
    r.qr_payment_request_id == new.qr_payment_request_id
    || r.id == new.id
    || r.display_reference == new.display_reference
    || r.intent_token_hash == new.intent_token_hash
    || (r.sender_customer_id == new.sender_customer_id
        && r.idempotency_key_hash == new.idempotency_key_hash)

abbrev pub scanned_event : QrEnv → Ident → QrPaymentEvent
scanned_event env qr_id = record {
  qr_payment_request_id = qr_id;
  event_type = qr_scanned;
  previous_status = none;
  next_status = none;
  safe_code = none;
  occurred_at = env.now;
}

-- The transaction: the scan's event and the redemption.
unfoldable pub record_scan : QrEnv → QrRedemption → QrDb → Result QrFailure QrDb
record_scan env new db = do
  throw_if (any (clashes new) db.redemptions) unique_violation
  ok (record db {
    redemptions = db.redemptions ++ new ∷ [];
    events = db.events ++ scanned_event env new.qr_payment_request_id ∷ [];
  })

abbrev pub preview_of : QrEnv → QrPaymentRequest → QrPreview
preview_of env qr = record {
  qr_id = qr.id;
  recipient_masked_reference = qr.recipient_masked_reference;
  amount = shown_amount qr.currency qr.amount_minor;
  purpose = qr.purpose;
  type = qr.type;
  expires_at = qr.expires_at;
  intent_token = env.intent_token;
}

unfoldable pub preview : QrEnv → PreviewInput → QrDb → Result QrFailure (QrPreview × QrDb)
unfolding check_code check_request record_scan
preview env input db = do
  decoded ← or_throw (env.decode input.payload) (qr_error qr_invalid)
  check_code env decoded
  qr ← or_throw (find_by_nonce (env.sha256 decoded.data_of.nonce) db) (qr_error qr_invalid)
  check_request input qr
  detail ← sending_account env input
  amount ← redemption_amount env qr decoded.data_of.amount_minor
  after ← record_scan env (new_redemption env input qr detail amount) db
  ok (preview_of env qr, after)
