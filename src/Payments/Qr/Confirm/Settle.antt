-- ===== src/Payments/Qr/Confirm/Settle.antt =====
-- qr.service.ts `settle`: the Ledger's answer, written to the redemption and its code.
use aegis_shield_phase.Prelude.{
  Option, none, some, List, [], ◌∷◌, ◌++◌, ◌==◌, ltb, if◌then◌else◌, find, get_or, update_where, ok,
  err,
}
use aegis_shield_phase.Payments.Schema.{Ident, FailureCode}
use aegis_shield_phase.Payments.Calls.{LedgerTransferResult, ledger_call_error, other_exception}
use aegis_shield_phase.Payments.Qr.Schema.{
  redeemed, QrPaymentStatus, processing, completed, failed, QrPaymentEventType, completed_event,
  failed_event, payment_status, QrPaymentRequest, QrRedemption, QrPaymentEvent, QrDb,
}
use aegis_shield_phase.Payments.Qr.Env.{QrEnv}

-- `include: { qrPaymentRequest: true }`
abbrev pub request_of : QrRedemption → QrDb → Option QrPaymentRequest
request_of r db = find (λ (q : QrPaymentRequest). q.id == r.qr_payment_request_id) db.requests

abbrev pub completed_row : QrEnv → LedgerTransferResult → QrRedemption → QrRedemption
completed_row env result r = record r {
  status = completed;
  ledger_journal_id = some result.journal_id;
  sender_balance_after_minor = some result.sender_balance_after;
  recipient_balance_after_minor = some result.recipient_balance_after;
  completed_at = some env.now;
}

abbrev pub failed_row : QrEnv → QrRedemption → QrRedemption
failed_row env r = record r { status = failed; failed_at = some env.now }

abbrev pub update_redemption :
    QrRedemption → (QrRedemption → QrRedemption) → QrDb → List QrRedemption
update_redemption row change db =
    update_where (λ (r : QrRedemption). r.id == row.id) change db.redemptions

abbrev pub stored_row : QrRedemption → List QrRedemption → QrRedemption
stored_row row rows = get_or (find (λ (r : QrRedemption). r.id == row.id) rows) row

abbrev pub mark_redeemed : QrEnv → QrRedemption → QrDb → List QrPaymentRequest
mark_redeemed env row db =
    update_where (λ (q : QrPaymentRequest). q.id == row.qr_payment_request_id)
      (λ q. record q { status = redeemed; redeemed_at = some env.now }) db.requests

abbrev pub settled_event :
    QrEnv
    → QrRedemption
    → QrPaymentEventType
    → QrPaymentStatus
    → Option FailureCode
    → QrPaymentEvent
settled_event env row type next code = record {
  qr_payment_request_id = row.qr_payment_request_id;
  event_type = type;
  previous_status = some (payment_status processing);
  next_status = some (payment_status next);
  safe_code = code;
  occurred_at = env.now;
}

unfoldable pub complete : QrEnv → QrRedemption → LedgerTransferResult → QrDb → QrRedemption × QrDb
complete env row result db =
    let rows = update_redemption row (completed_row env result) db in
    (
      stored_row row rows,
      record {
        requests = mark_redeemed env row db;
        redemptions = rows;
        events = db.events ++ settled_event env row completed_event completed none ∷ [];
      },
    )

unfoldable pub fail_payment : QrEnv → QrRedemption → FailureCode → QrDb → QrRedemption × QrDb
fail_payment env row code db =
    let rows = update_redemption row (failed_row env) db in
    (
      stored_row row rows,
      record db {
        redemptions = rows;
        events = db.events ++ settled_event env row failed_event failed (some code) ∷ [];
      },
    )

abbrev pub recipient_reference : QrRedemption → QrDb → Ident
recipient_reference row db = elim (request_of row db) [
  | none ↦ 0
  | some qr ↦ qr.recipient_public_reference
]

-- An answer below 500 fails the payment; every other exception leaves it in PROCESSING.
unfoldable pub settle : QrEnv → QrRedemption → QrDb → QrRedemption × QrDb
unfolding complete fail_payment
settle env row db = elim (env.ledger_transfer row (recipient_reference row db)) [
  | ok result ↦ complete env row result db
  | err failure ↦ elim failure [
    | ledger_call_error status code ↦
        if ltb status 500 then fail_payment env row code db else (row, db)
    | other_exception ↦ (row, db)
  ]
]
