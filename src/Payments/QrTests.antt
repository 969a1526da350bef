-- ===== src/Payments/QrTests.antt =====
-- One code that is issued, scanned and paid, and the theorems on it.
use aegis_shield_phase.Prelude.{◌⊎◌, ℕ, ◌+◌, ◌≡◌, refl, none, some, [], ◌∷◌, ◌++◌, ok, err}
use aegis_shield_phase.Prelude.Int.{pos}
use aegis_shield_phase.Payments.Qr.Schema.{
  Chars, static, dynamic, active, unique_violation, QrPaymentRequest, QrRedemption, QrDb,
}
use aegis_shield_phase.Payments.Qr.Codes.{
  QrPayloadData, canonical_payload_string, verify_qr_signature,
}
use aegis_shield_phase.Payments.Qr.Env.{QrEnv}
use aegis_shield_phase.Payments.Qr.Issue.{IssuedQr, issue, write_request, sign_qr_payload}
use aegis_shield_phase.Payments.Qr.Preview.{
  PreviewInput, preview, check_code, check_request, record_scan, lkr, new_redemption, scanned_event,
  preview_of,
}
use aegis_shield_phase.Payments.Qr.Confirm.{
  ConfirmInput, accept, accept_fresh, settle_accepted, confirm, keyed,
}
use aegis_shield_phase.Payments.Qr.Confirm.Settle.{completed_row, settle, complete, fail_payment}
use aegis_shield_phase.Payments.Qr.Confirm.Reads.{format_redemption}
use aegis_shield_phase.Payments.Qr.Collisions.{verify_qr_signature-moved, with_reference, separator}
use aegis_shield_phase.Payments.Qr.Steps.{stay}
use aegis_shield_phase.Payments.Qr.Confirm.Paid.{IsReplay, IsPaid, confirm-IsPaid}
use aegis_shield_phase.Payments.Qr.Steps.Scanned.{scanned_once}

-- The hash of a text is its first character; a code's text is its nonce.
abbrev first : Chars → ℕ
first [] = 0
first (c ∷ cs) = c

abbrev code : QrPayloadData
code = record {
  version = 1;
  recipient_ref = 82 ∷ [];
  currency = lkr;
  amount_minor = none;
  nonce = 7 ∷ [];
  expires_at = 500 ∷ [];
  type = static;
  purpose = none;
  key_id = [];
}

abbrev env : QrEnv
env = record {
  now = 40;
  dynamic_ttl_seconds = 60;
  static_ttl_hours = 1;
  signing = record { digits = λ n. n ∷ []; hmac = λ text. 5 ∷ []; from_hex = λ text. text };
  decode = λ text. some (record { data_of = code; signature = 5 ∷ [] });
  encode = λ p. p.data_of.nonce;
  parse_date = λ text. some (first text);
  iso = λ t. t ∷ [];
  text_of = λ i. i ∷ [];
  big_int = λ text. some (pos (first text));
  sha256 = first;
  canonical_hash = λ a b. a + b;
  nonce = 7 ∷ [];
  intent_token = 9 ∷ [];
  new_id = 1;
  display_reference = 2;
  correlation_id = 3;
  account_detail =
      λ account customer. ok (record { masked_reference = account; receiving_reference = 82 });
  ledger_transfer = λ r reference. ok (record {
    journal_id = 500;
    sender_posting_id = 600;
    recipient_posting_id = 601;
    sender_balance_after = pos 150;
    recipient_balance_after = pos 250;
  });
  meanwhile = λ d. d;
}

abbrev request : QrPaymentRequest
request = record {
  id = 1;
  type = static;
  status = active;
  recipient_customer_id = 72;
  recipient_account_id = 12;
  recipient_masked_reference = 92;
  recipient_public_reference = 82;
  currency = lkr;
  amount_minor = some (pos 250);
  purpose = none;
  nonce_hash = 7;
  signature_hash = 5;
  protocol_version = 1;
  expires_at = 500;
  redeemed_at = none;
}

abbrev tables : QrDb
tables = record { requests = request ∷ []; redemptions = []; events = [] }

abbrev scan : PreviewInput
scan = record { payload = []; sender_customer_id = 71; source_account_id = 11 }

abbrev row : QrRedemption
row =
    new_redemption env scan request (record { masked_reference = 11; receiving_reference = 82 })
      (pos 250)

abbrev scanned : QrDb
scanned = record {
  requests = request ∷ [];
  redemptions = row ∷ [];
  events = scanned_event env 1 ∷ [];
}

scan_ok : preview env scan tables ≡ ok (preview_of env request, scanned)
unfolding preview check_code check_request record_scan verify_qr_signature canonical_payload_string
scan_ok = refl

again : preview env (record scan { sender_customer_id = 73 }) scanned ≡ err unique_violation
unfolding preview check_code check_request record_scan verify_qr_signature canonical_payload_string
again = refl

abbrev pay : ConfirmInput
pay = record {
  sender_customer_id = 71;
  intent_token = 9 ∷ [];
  idempotency_key = 4 ∷ [];
  amount_minor = none;
}

abbrev paid_row : QrRedemption
paid_row =
    completed_row env
      (record {
        journal_id = 500;
        sender_posting_id = 600;
        recipient_posting_id = 601;
        sender_balance_after = pos 150;
        recipient_balance_after = pos 250;
      })
      (keyed env pay row)

abbrev paid : QrDb
paid = (confirm env pay scanned).1

pays : (confirm env pay scanned).0 ≡ ok (format_redemption paid_row)
unfolding confirm accept accept_fresh settle_accepted settle complete fail_payment
pays = refl

pays_with : confirm env pay scanned ≡ (ok (format_redemption paid_row), paid)
pays_with = λ i. (pays i, paid)

-- An issued code is paid once: its amount is stored with it.
issued_code :
    (q : IssuedQr × QrDb) × (issue env
        (record {
          customer_id = 72;
          account_id = 12;
          type = dynamic;
          amount_minor = some (6 ∷ []);
          currency = lkr;
          purpose = none;
        })
        (record { requests = []; redemptions = []; events = [] })
      ≡ ok q)
unfolding issue write_request sign_qr_payload canonical_payload_string
issued_code = (_, refl)

confirm-IsPaid_example :
    IsReplay env pay scanned (format_redemption paid_row) ⊎ IsPaid env pay scanned paid
confirm-IsPaid_example =
    confirm-IsPaid env pay scanned {v = format_redemption paid_row} {after = paid} (λ d. refl)
      pays_with refl

scanned_once_example : ¬ (
    preview (record env { now = 50 }) (record scan { sender_customer_id = 73 }) scanned
    ≡ ok (preview_of env request, scanned))
scanned_once_example =
    scanned_once env (record env { now = 50 }) scan (record scan { sender_customer_id = 73 }) tables
      {mid = scanned} {after = scanned} {last = scanned} {v = preview_of env request}
      {w = preview_of env request} refl (λ t. refl) (λ t. refl) scan_ok (stay scanned)

verify_qr_signature-moved_example :
    verify_qr_signature env.signing (record {
      data_of = with_reference code (1 ∷ separator ++ 2 ∷ []) (3 ∷ []);
      signature = 5 ∷ [];
    })
    ≡ verify_qr_signature env.signing (record {
      data_of = with_reference code (1 ∷ []) (2 ∷ separator ++ 3 ∷ []);
      signature = 5 ∷ [];
    })
verify_qr_signature-moved_example =
    verify_qr_signature-moved env.signing code (1 ∷ []) (2 ∷ []) (3 ∷ []) (5 ∷ [])
