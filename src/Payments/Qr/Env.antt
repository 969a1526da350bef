-- ===== src/Payments/Qr/Env.antt =====
-- qr.service.ts: what a call of the service is given from outside it.
use aegis_shield_phase.Prelude.{ℕ, Option, Result}
use aegis_shield_phase.Prelude.Int.{ℤ}
use aegis_shield_phase.Payments.Schema.{Ident}
use aegis_shield_phase.Payments.Calls.{LedgerFailure, LedgerTransferResult}
use aegis_shield_phase.Payments.Qr.Schema.{Chars, QrRedemption, AccountDetail, QrDb}
use aegis_shield_phase.Payments.Qr.Codes.{Signing, SignedQrPayload}

-- The clock, the configuration, the identifiers and texts that are drawn for a call, the library's
-- encodings and hashes, and the answers of the Ledger. `meanwhile` is what other sessions commit
-- between the transaction of `confirm` and its settlement.
pub record QrEnv : Type 0 where
  pub now : ℕ
  pub dynamic_ttl_seconds : ℕ
  pub static_ttl_hours : ℕ
  pub signing : Signing
  pub decode : Chars → Option SignedQrPayload
  pub encode : SignedQrPayload → Chars
  pub parse_date : Chars → Option ℕ
  pub iso : ℕ → Chars
  pub text_of : Ident → Chars
  pub big_int : Chars → Option ℤ
  pub sha256 : Chars → Ident
  pub canonical_hash : Ident → Ident → Ident
  pub nonce : Chars
  pub intent_token : Chars
  pub new_id : Ident
  pub display_reference : Ident
  pub correlation_id : Ident
  pub account_detail : Ident → Ident → Result LedgerFailure AccountDetail
  pub ledger_transfer : QrRedemption → Ident → Result LedgerFailure LedgerTransferResult
  pub meanwhile : QrDb → QrDb
