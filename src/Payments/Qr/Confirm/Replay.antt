-- ===== src/Payments/Qr/Confirm/Replay.antt =====
-- qr.service.ts `confirm`: a confirmation that is sent again.
use aegis_shield_phase.Prelude.{◌≡◌, Option, some, List, ◌==◌, find}
use aegis_shield_phase.Payments.Schema.{Ident}
use aegis_shield_phase.Payments.Qr.Schema.{QrRedemption, QrDb}
use aegis_shield_phase.Payments.Qr.Env.{QrEnv}
use aegis_shield_phase.Payments.Qr.Confirm.{ConfirmInput, find_key, request_hash_of}
use aegis_shield_phase.Payments.Qr.Confirm.Reads.{RedemptionView, format_redemption}

abbrev pub find_id : Ident → List QrRedemption → Option QrRedemption
find_id i rows = find (λ (r : QrRedemption). r.id == i) rows

-- Settlement leaves the row where its key and its identifier find it, with its hash.
record IsKept (sender key : Ident) (row : QrRedemption) (out : QrRedemption × QrDb) : Type 0 where
  found : find_key sender key out.1 ≡ some out.0
  hash : out.0.request_hash ≡ row.request_hash

-- What a fresh confirmation returns is stored under its key, with the hash of its request.
record IsStored (env : QrEnv) (input : ConfirmInput) (v : RedemptionView) (after : QrDb)
    : Type 0 where
  row : QrRedemption
  found : find_key input.sender_customer_id (env.sha256 input.idempotency_key) after ≡ some row
  hash : row.request_hash ≡ request_hash_of env input
  shown : format_redemption row ≡ v
