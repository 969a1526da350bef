-- ===== src/Payments/Qr/Confirm.antt =====
-- qr.service.ts `confirm`, `settle`, `formatRedemption`, `status` and `receipt`.
pub mod Settle
pub mod Reads
pub mod Replay
pub mod Paid
use aegis_shield_phase.Prelude.{
  ℕ, Bool, true, false, not, ◌&&◌, ◌||◌, Option, none, some, List, [], ◌∷◌, ◌++◌, ◌==◌, leb,
  if◌then◌else◌, any, find, get_or, update_where, Result, ok, err, ◌>>=◌, ◌>>◌, throw_if, or_throw,
}
use aegis_shield_phase.Payments.Schema.{Ident}
use aegis_shield_phase.Payments.Qr.Schema.{
  Chars, QrPaymentRequestStatus, expired, QrPaymentStatus, processing, QrPaymentRequest,
  QrRedemption, QrDb, qr_invalid, qr_expired, qr_already_redeemed, idempotency_conflict, QrFailure,
  qr_error, unique_violation, missing_relation,
}
use aegis_shield_phase.Payments.Qr.Env.{QrEnv}
use aegis_shield_phase.Payments.Qr.Confirm.Settle.{request_of, settle}
use aegis_shield_phase.Payments.Qr.Confirm.Reads.{RedemptionView, format_redemption}

pub record ConfirmInput : Type 0 where
  pub sender_customer_id : Ident
  pub intent_token : Chars
  pub idempotency_key : Chars
  pub amount_minor : Option Chars

pub record Accepted : Type 0 where
  pub redemption : QrRedemption
  pub replayed : Bool

abbrev pub find_key : Ident → Ident → QrDb → Option QrRedemption
find_key sender key_hash db =
    find
      (λ (r : QrRedemption). r.sender_customer_id == sender && r.idempotency_key_hash == key_hash)
      db.redemptions

abbrev pub find_token : Ident → QrDb → Option QrRedemption
find_token token_hash db =
    find (λ (r : QrRedemption). r.intent_token_hash == token_hash) db.redemptions

abbrev pub is_processing : QrPaymentStatus → Bool
is_processing processing = true
is_processing _ = false

abbrev pub is_expired : QrPaymentRequestStatus → Bool
is_expired expired = true
is_expired _ = false

abbrev pub request_hash_of : QrEnv → ConfirmInput → Ident
request_hash_of env input =
    env.canonical_hash input.sender_customer_id (env.sha256 input.intent_token)

abbrev pub keyed : QrEnv → ConfirmInput → QrRedemption → QrRedemption
keyed env input r = record r {
  idempotency_key_hash = env.sha256 input.idempotency_key;
  request_hash = request_hash_of env input;
}

-- The unique index on the sender and the key's hash, at the update of one row.
abbrev pub key_taken : QrEnv → ConfirmInput → QrRedemption → QrDb → Bool
key_taken env input row db =
    any
      (λ (r : QrRedemption).
        not (r.id == row.id)
        && r.sender_customer_id == row.sender_customer_id
        && r.idempotency_key_hash == env.sha256 input.idempotency_key)
      db.redemptions

abbrev pub write_key : QrEnv → ConfirmInput → QrRedemption → QrDb → QrDb
write_key env input row db = record db {
  redemptions =
      update_where (λ (r : QrRedemption). r.id == row.id) (keyed env input) db.redemptions;
}

-- The transaction once no redemption of the sender has the key.
unfoldable pub accept_fresh : QrEnv → ConfirmInput → QrDb → Result QrFailure (Accepted × QrDb)
accept_fresh env input db = do
  row ← or_throw (find_token (env.sha256 input.intent_token) db) (qr_error qr_invalid)
  qr ← or_throw (request_of row db) missing_relation
  throw_if (not (is_processing row.status)) (qr_error qr_already_redeemed)
  throw_if (leb qr.expires_at env.now || is_expired qr.status) (qr_error qr_expired)
  throw_if (key_taken env input row db) unique_violation
  ok (record { redemption = keyed env input row; replayed = false }, write_key env input row db)

-- A redemption that has the key is replayed, if it is of the same request.
abbrev pub replay : QrEnv → ConfirmInput → QrRedemption → QrDb → Result QrFailure (Accepted × QrDb)
replay env input existing db =
    if existing.request_hash == request_hash_of env input
    then ok (record { redemption = existing; replayed = true }, db)
    else err (qr_error idempotency_conflict)

unfoldable pub accept : QrEnv → ConfirmInput → QrDb → Result QrFailure (Accepted × QrDb)
unfolding accept_fresh
accept env input db =
    elim (find_key input.sender_customer_id (env.sha256 input.idempotency_key) db) [
      | none ↦ accept_fresh env input db
      | some existing ↦ replay env input existing db
    ]

unfoldable pub settle_accepted :
    QrEnv → QrDb → Result QrFailure (Accepted × QrDb) → Result QrFailure RedemptionView × QrDb
unfolding settle
settle_accepted env db (err e) = (err e, db)
settle_accepted env db (ok (accepted, tx)) =
    let settled = settle env accepted.redemption (env.meanwhile tx) in
    if accepted.replayed
    then (ok (format_redemption accepted.redemption), tx)
    else (ok (format_redemption settled.0), settled.1)

unfoldable pub confirm : QrEnv → ConfirmInput → QrDb → Result QrFailure RedemptionView × QrDb
unfolding accept settle_accepted
confirm env input db = settle_accepted env db (accept env input db)
