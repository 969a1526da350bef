-- ===== src/Payments/Qr/Confirm/Reads.antt =====
-- qr.service.ts `formatRedemption`, `status` and `receipt`.
use aegis_shield_phase.Prelude.{ℕ, ◌&&◌, ◌||◌, Option, ◌==◌, find, Result, ok, ◌>>=◌, or_throw}
use aegis_shield_phase.Payments.Schema.{Ident}
use aegis_shield_phase.Payments.Qr.Schema.{
  Chars, QrPaymentStatus, QrRedemption, QrDb, transfer_not_found, QrFailure, qr_error,
  missing_relation,
}
use aegis_shield_phase.Payments.Qr.Preview.{Shown, shown_amount}
use aegis_shield_phase.Payments.Qr.Confirm.Settle.{request_of}

pub record RedemptionView : Type 0 where
  pub id : Ident
  pub display_reference : Ident
  pub status : QrPaymentStatus
  pub sender_masked_reference : Ident
  pub recipient_masked_reference : Ident
  pub amount : Shown
  pub sender_balance_after : Option Shown
  pub created_at : ℕ
  pub completed_at : Option ℕ

abbrev pub amount_of : QrRedemption → Shown
amount_of r = record { currency = r.currency; minor_units = r.amount_minor }

abbrev pub format_redemption : QrRedemption → RedemptionView
format_redemption r = record {
  id = r.id;
  display_reference = r.display_reference;
  status = r.status;
  sender_masked_reference = r.sender_masked_reference;
  recipient_masked_reference = r.recipient_masked_reference;
  amount = amount_of r;
  sender_balance_after = shown_amount r.currency r.sender_balance_after_minor;
  created_at = r.created_at;
  completed_at = r.completed_at;
}

-- The redemption of a code that the customer pays or is paid by.
abbrev pub find_of : Ident → Ident → QrDb → Option QrRedemption
find_of customer qr_id db =
    find
      (λ (r : QrRedemption).
        r.qr_payment_request_id == qr_id
        && (r.sender_customer_id == customer || r.recipient_customer_id == customer))
      db.redemptions

pub record QrStatus : Type 0 where
  pub id : Ident
  pub display_reference : Ident
  pub status : QrPaymentStatus
  pub amount : Shown
  pub created_at : ℕ
  pub completed_at : Option ℕ

unfoldable pub qr_status : Ident → Ident → QrDb → Result QrFailure QrStatus
qr_status customer qr_id db = do
  r ← or_throw (find_of customer qr_id db) (qr_error transfer_not_found)
  ok (record {
    id = r.id;
    display_reference = r.display_reference;
    status = r.status;
    amount = amount_of r;
    created_at = r.created_at;
    completed_at = r.completed_at;
  })

-- The receipt's reference is `RCPT-` with the display reference.
pub record QrReceipt : Type 0 where
  pub view : RedemptionView
  pub receipt_of : Ident
  pub purpose : Option Chars

unfoldable pub qr_receipt : Ident → Ident → QrDb → Result QrFailure QrReceipt
qr_receipt customer qr_id db = do
  r ← or_throw (find_of customer qr_id db) (qr_error transfer_not_found)
  qr ← or_throw (request_of r db) missing_relation
  ok (record { view = format_redemption r; receipt_of = r.display_reference; purpose = qr.purpose })
