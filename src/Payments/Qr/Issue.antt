-- ===== src/Payments/Qr/Issue.antt =====
-- qr.service.ts `issue`.
use aegis_shield_phase.Prelude.{
  ℕ, ◌+◌, ◌*◌, Bool, ◌||◌, Option, none, some, [], ◌∷◌, ◌++◌, ◌==◌, if◌then◌else◌, any, Result, ok,
  err, ◌>>=◌, ◌>>◌, throw_if,
}
use aegis_shield_phase.Prelude.Int.{ℤ}
use aegis_shield_phase.Payments.Schema.{Ident}
use aegis_shield_phase.Payments.Calls.{LedgerFailure, ledger_call_error, other_exception}
use aegis_shield_phase.Payments.Qr.Schema.{
  Chars, QrType, static, dynamic, active, qr_issued, request_status, QrPaymentRequest,
  QrPaymentEvent, AccountDetail, QrDb, account_not_found, QrFailure, qr_error, ledger_failure,
  syntax_error, unique_violation,
}
use aegis_shield_phase.Payments.Qr.Codes.{
  QrPayloadData, SignedQrPayload, canonical_payload_string, qr_protocol_version,
}
use aegis_shield_phase.Payments.Qr.Env.{QrEnv}

pub record IssueInput : Type 0 where
  pub customer_id : Ident
  pub account_id : Ident
  pub type : QrType
  pub amount_minor : Option Chars
  pub currency : Chars
  pub purpose : Option Chars

pub record IssuedQr : Type 0 where
  pub qr_id : Ident
  pub payload : Chars
  pub type : QrType
  pub expires_at : ℕ

-- A status of 404 is answered with `ACCOUNT_NOT_FOUND`, every other exception is thrown again.
abbrev pub issue_failure : LedgerFailure → QrFailure
issue_failure (ledger_call_error status code) =
    if status == 404
    then qr_error account_not_found
    else ledger_failure (ledger_call_error status code)
issue_failure other_exception = ledger_failure other_exception

abbrev pub issuing_account : QrEnv → IssueInput → Result QrFailure AccountDetail
issuing_account env input = elim (env.account_detail input.account_id input.customer_id) [
  | ok detail ↦ ok detail
  | err failure ↦ err (issue_failure failure)
]

abbrev pub ttl_ms : QrEnv → QrType → ℕ
ttl_ms env dynamic = env.dynamic_ttl_seconds * 1000
ttl_ms env static = env.static_ttl_hours * 3600 * 1000

-- An empty text stands for no text.
abbrev pub truthy : Option Chars → Option Chars
truthy (some (c ∷ cs)) = some (c ∷ cs)
truthy _ = none

abbrev pub read_amount : QrEnv → Option Chars → Result QrFailure (Option ℤ)
read_amount env none = ok none
read_amount env (some text) = elim (env.big_int text) [
  | none ↦ err syntax_error
  | some amount ↦ ok (some amount)
]

abbrev pub payload_data : QrEnv → IssueInput → AccountDetail → QrPayloadData
payload_data env input detail = record {
  version = qr_protocol_version;
  recipient_ref = env.text_of detail.receiving_reference;
  currency = input.currency;
  amount_minor = truthy input.amount_minor;
  nonce = env.nonce;
  expires_at = env.iso (env.now + ttl_ms env input.type);
  type = input.type;
  purpose = truthy input.purpose;
  key_id = b'a' ∷ b'e' ∷ b'g' ∷ b'i' ∷ b's' ∷ b'-' ∷ b'q' ∷ b'r' ∷ b'-' ∷ b'v' ∷ b'1' ∷ [];
}

-- `signQrPayload`
unfoldable pub sign_qr_payload : QrEnv → QrPayloadData → SignedQrPayload
unfolding canonical_payload_string
sign_qr_payload env d = record {
  data_of = d;
  signature = env.signing.hmac (canonical_payload_string env.signing.digits d);
}

abbrev pub new_request :
    QrEnv → IssueInput → AccountDetail → SignedQrPayload → Option ℤ → QrPaymentRequest
new_request env input detail signed amount = record {
  id = env.new_id;
  type = input.type;
  status = active;
  recipient_customer_id = input.customer_id;
  recipient_account_id = input.account_id;
  recipient_masked_reference = detail.masked_reference;
  recipient_public_reference = detail.receiving_reference;
  currency = input.currency;
  amount_minor = amount;
  purpose = truthy input.purpose;
  nonce_hash = env.sha256 env.nonce;
  signature_hash = env.sha256 signed.signature;
  protocol_version = qr_protocol_version;
  expires_at = env.now + ttl_ms env input.type;
  redeemed_at = none;
}

abbrev pub issued_event : QrEnv → QrPaymentEvent
issued_event env = record {
  qr_payment_request_id = env.new_id;
  event_type = qr_issued;
  previous_status = none;
  next_status = some (request_status active);
  safe_code = none;
  occurred_at = env.now;
}

-- The stored request with its event, and the code that is returned.
unfoldable pub write_request :
    QrEnv → IssueInput → AccountDetail → Option ℤ → QrDb → IssuedQr × QrDb
unfolding sign_qr_payload
write_request env input detail amount db =
    let signed = sign_qr_payload env (payload_data env input detail) in
    (
      record {
        qr_id = env.new_id;
        payload = env.encode signed;
        type = input.type;
        expires_at = env.now + ttl_ms env input.type;
      },
      record db {
        requests = db.requests ++ new_request env input detail signed amount ∷ [];
        events = db.events ++ issued_event env ∷ [];
      },
    )

-- The unique index on the nonce's hash.
abbrev pub nonce_taken : QrEnv → QrDb → Bool
nonce_taken env db =
    any (λ (q : QrPaymentRequest). q.nonce_hash == env.sha256 env.nonce || q.id == env.new_id)
      db.requests

unfoldable pub issue : QrEnv → IssueInput → QrDb → Result QrFailure (IssuedQr × QrDb)
unfolding write_request
issue env input db = do
  detail ← issuing_account env input
  amount ← read_amount env (truthy input.amount_minor)
  throw_if (nonce_taken env db) unique_violation
  ok (write_request env input detail amount db)
