-- ===== src/Sabcl/Protocol.antt =====
-- packages/sabcl/src/protocol/version.ts, errors.ts and the fields of envelope.ts.
-- A buffer is a list of bytes; a text is the list of its UTF-8 bytes.
use aegis_shield_phase.Prelude.{ℕ, List, [], ◌∷◌}

abbrev pub Bytes : Type 0
Bytes = List ℕ

abbrev pub sabcl_max_plaintext_bytes : ℕ
sabcl_max_plaintext_bytes = 65536

abbrev pub sabcl_max_ttl_seconds : ℕ
sabcl_max_ttl_seconds = 120

abbrev pub sabcl_clock_skew_seconds : ℕ
sabcl_clock_skew_seconds = 5

-- `SABCL/1`
abbrev pub sabcl_protocol_version : Bytes
sabcl_protocol_version = b'S' ∷ b'A' ∷ b'B' ∷ b'C' ∷ b'L' ∷ b'/' ∷ b'1' ∷ []

pub data SabclErrorCode : Type 0 where
  malformed unsupported_version oversized expired replayed : SabclErrorCode
  signature_invalid decryption_failed unknown_sender unknown_recipient : SabclErrorCode
  key_revoked route_invalid hop_limit_exceeded : SabclErrorCode
  recipient_unavailable not_configured : SabclErrorCode

-- A `SabclError` with its code, or another exception.
pub data SabclFailure : Type 0 where
  sabcl_error : SabclErrorCode → SabclFailure
  range_error other_error : SabclFailure

-- `toSabclError`
abbrev pub to_sabcl_error : SabclErrorCode → SabclFailure → SabclErrorCode
to_sabcl_error fallback (sabcl_error code) = code
to_sabcl_error fallback _ = fallback

abbrev pub status_for_code : SabclErrorCode → ℕ
status_for_code oversized = 413
status_for_code replayed = 409
status_for_code expired = 409
status_for_code route_invalid = 403
status_for_code hop_limit_exceeded = 403
status_for_code recipient_unavailable = 503
status_for_code not_configured = 503
status_for_code malformed = 400
status_for_code unsupported_version = 400
status_for_code _ = 401

-- An envelope without its ciphertext, tag and signature.
pub record SabclHeader : Type 0 where
  pub v : Bytes
  pub mid : Bytes
  pub rt : Bytes
  pub skid : Bytes
  pub rkid : Bytes
  pub epk : Bytes
  pub iat : ℕ
  pub exp : ℕ
  pub n : Bytes
  pub hl : ℕ
  pub pad : ℕ

pub record SabclEnvelope : Type 0 where
  pub header : SabclHeader
  pub ct : Bytes
  pub tag : Bytes
  pub sig : Bytes
