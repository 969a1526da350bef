-- ===== src/Sabcl/Recipient.antt =====
-- packages/sabcl/src/server/sabcl-recipient.ts, with `openRequest` of protocol/seal.ts and `peer` of
-- crypto/keyring.ts. Keys, ciphers, signatures, schemas, regular expressions and JSON are
-- parameters; a parsed body is a number. The replay store is the operation it claims with, the same
-- for both stores of packages/sabcl/src/replay.
pub mod Once
use aegis_shield_phase.Prelude.{
  ℕ, zero, suc, ◌+◌, ◌-◌, ◌*◌, ◌/◌, Bool, true, false, not, ◌&&◌, ◌||◌, Option, none, some, List,
  [], ◌∷◌, ◌++◌, leb, ltb, ◌==◌, max, if◌then◌else◌, length, any, find, Result, ok, err, ◌>>=◌,
  ◌>>◌, throw_if, or_throw,
}
use aegis_shield_phase.Sabcl.Protocol.{
  Bytes, SabclErrorCode, malformed, unsupported_version, expired, replayed, signature_invalid,
  decryption_failed, unknown_sender, unknown_recipient, key_revoked, route_invalid, SabclFailure,
  sabcl_error, SabclHeader, SabclEnvelope, sabcl_protocol_version, sabcl_clock_skew_seconds,
  sabcl_max_ttl_seconds, status_for_code, to_sabcl_error,
}
use aegis_shield_phase.Sabcl.Padding.{unpad_payload}
use aegis_shield_phase.Sabcl.Canonical.{canonical_encode, canonical_request_header}
use aegis_shield_phase.Sabcl.Replay.{same_bytes, Claims}

pub data Method : Type 0 where
  get_method post_method : Method

pub record SabclInnerRequest : Type 0 where
  pub op : Bytes
  pub method : Method
  pub path : Bytes
  pub body : ℕ

pub record SabclCapability : Type 0 where
  pub operation_prefix : Bytes
  pub path_patterns : List (Bytes → Bool)
  pub methods : List Method

pub record SabclPublicIdentity : Type 0 where
  pub key_id : Bytes
  pub signing_public_key : Bytes
  pub revoked : Bool
  pub not_after : Option ℕ

pub record Crypto : Type 0 where
  pub from_base64_url : Bytes → Result SabclFailure Bytes
  pub verify_bytes : Bytes → Bytes → Bytes → Bool
  pub shared_secret : Bytes → Result SabclFailure Bytes
  pub derive_key : Bytes → Bytes → Bytes → Bytes
  pub aead_open : Bytes → Bytes → Bytes → Bytes → Bytes → Result SabclFailure Bytes
  pub parse_json : Bytes → Option ℕ
  pub parse_inner : ℕ → Option SabclInnerRequest
  pub decode_uri : Bytes → Option Bytes
  pub seal_response : Bytes → Bytes → ℕ → Result SabclFailure ℕ

pub record SabclRecipient : Type 0 where
  pub own_key_id : Bytes
  pub peers : List SabclPublicIdentity
  pub capabilities : List SabclCapability
  pub crypto : Crypto
  pub dispatch : SabclInnerRequest → Result SabclFailure ℕ

-- `SABCL_DOMAIN.requestKey` and `SABCL_DOMAIN.requestSignature`
abbrev pub request_key_domain : Bytes
request_key_domain =
    b'S' ∷ b'A' ∷ b'B' ∷ b'C' ∷ b'L' ∷ b'/' ∷ b'1' ∷ b' ' ∷ b'r' ∷ b'e' ∷ b'q' ∷ b'u' ∷ b'e' ∷ b's'
    ∷ b't' ∷ b'-' ∷ b'k' ∷ b'e' ∷ b'y' ∷ []

abbrev pub request_signature_domain : Bytes
request_signature_domain =
    b'S' ∷ b'A' ∷ b'B' ∷ b'C' ∷ b'L' ∷ b'/' ∷ b'1' ∷ b' ' ∷ b'r' ∷ b'e' ∷ b'q' ∷ b'u' ∷ b'e' ∷ b's'
    ∷ b't' ∷ b'-' ∷ b's' ∷ b'i' ∷ b'g' ∷ b'n' ∷ b'a' ∷ b't' ∷ b'u' ∷ b'r' ∷ b'e' ∷ []

abbrev pub is_late : ℕ → Option ℕ → Bool
is_late now none = false
is_late now (some last) = ltb last now

unfoldable pub peer : List SabclPublicIdentity → Bytes → ℕ → Result SabclFailure SabclPublicIdentity
peer peers key_id now = do
  found ←
      or_throw (find (λ (p : SabclPublicIdentity). same_bytes p.key_id key_id) peers)
        (sabcl_error unknown_sender)
  throw_if found.revoked (sabcl_error key_revoked)
  throw_if (is_late now found.not_after) (sabcl_error key_revoked)
  ok found

-- The checks of a header before any key is used.
unfoldable pub check_header : SabclRecipient → ℕ → SabclHeader → Result SabclFailure (Unit {0})
check_header cfg now h = do
  throw_if (not (same_bytes h.v sabcl_protocol_version)) (sabcl_error unsupported_version)
  throw_if (ltb h.exp now) (sabcl_error expired)
  throw_if (ltb (now + sabcl_clock_skew_seconds) h.iat) (sabcl_error expired)
  throw_if (ltb (h.iat + sabcl_max_ttl_seconds) h.exp) (sabcl_error malformed)
  throw_if (not (same_bytes h.rkid cfg.own_key_id)) (sabcl_error unknown_recipient)

pub record OpenedRequest : Type 0 where
  pub payload : ℕ
  pub message_id : Bytes
  pub response_secret : Bytes

-- The ciphertext, once the signature was checked.
unfoldable pub decrypt :
    SabclRecipient → SabclEnvelope → Bytes → Bytes → Bytes → Result SabclFailure OpenedRequest
unfolding unpad_payload canonical_encode
decrypt cfg e aad ciphertext tag = do
  secret ← cfg.crypto.shared_secret e.header.epk
  nonce ← cfg.crypto.from_base64_url e.header.n
  info ← canonical_encode (request_key_domain ∷ aad ∷ [])
  padded ← cfg.crypto.aead_open (cfg.crypto.derive_key secret nonce info) nonce ciphertext tag aad
  throw_if (not (length padded == e.header.pad)) (sabcl_error malformed)
  bytes ← unpad_payload padded
  payload ← or_throw (cfg.crypto.parse_json bytes) (sabcl_error malformed)
  ok (record { payload = payload; message_id = e.header.mid; response_secret = secret })

unfoldable pub open_request : SabclRecipient → ℕ → SabclEnvelope → Result SabclFailure OpenedRequest
unfolding peer check_header decrypt canonical_encode canonical_request_header
open_request cfg now e = do
  check_header cfg now e.header
  sender ← peer cfg.peers e.header.skid now
  aad ← canonical_request_header e.header
  ciphertext ← cfg.crypto.from_base64_url e.ct
  tag ← cfg.crypto.from_base64_url e.tag
  signature ← cfg.crypto.from_base64_url e.sig
  signed ← canonical_encode (request_signature_domain ∷ aad ∷ ciphertext ∷ tag ∷ [])
  throw_if (not (cfg.crypto.verify_bytes sender.signing_public_key signed signature))
      (sabcl_error signature_invalid)
  decrypt cfg e aad ciphertext tag

abbrev pub starts_with : Bytes → Bytes → Bool
starts_with [] text = true
starts_with (p ∷ ps) [] = false
starts_with (p ∷ ps) (c ∷ cs) = p == c && starts_with ps cs

abbrev pub includes : Bytes → Bytes → Bool
includes part [] = starts_with part []
includes part (c ∷ cs) = starts_with part (c ∷ cs) || includes part cs

abbrev pub safe_decode : Crypto → Bytes → Bytes
safe_decode crypto text = elim (crypto.decode_uri text) [ none ↦ text | some decoded ↦ decoded ]

abbrev pub same_method : Method → Method → Bool
same_method get_method get_method = true
same_method post_method post_method = true
same_method _ _ = false

unfoldable pub assert_capability :
    SabclRecipient → SabclInnerRequest → Result SabclFailure (Unit {0})
assert_capability cfg request = do
  capability ←
      or_throw
        (find (λ (c : SabclCapability). starts_with (c.operation_prefix ++ b'.' ∷ []) request.op)
          cfg.capabilities)
        (sabcl_error route_invalid)
  throw_if (not (any (same_method request.method) capability.methods)) (sabcl_error route_invalid)
  throw_if
      (includes (b'.' ∷ b'.' ∷ []) (safe_decode cfg.crypto request.path)
        || includes (92 ∷ []) (safe_decode cfg.crypto request.path))
      (sabcl_error route_invalid)
  throw_if (not (any (λ (p : Bytes → Bool). p request.path) capability.path_patterns))
      (sabcl_error route_invalid)

-- The status and the sealed body or the code, with the request that was dispatched.
pub record SabclRecipientOutcome : Type 0 where
  pub status : ℕ
  pub body : Result SabclErrorCode ℕ
  pub dispatched : Option SabclInnerRequest

abbrev pub reject : SabclErrorCode → Option SabclInnerRequest → SabclRecipientOutcome
reject code request = record {
  status = status_for_code code;
  body = err code;
  dispatched = request;
}

-- The request is dispatched, and the response sealed.
unfoldable pub answer : SabclRecipient → OpenedRequest → SabclInnerRequest → SabclRecipientOutcome
answer cfg opened inner = elim (cfg.dispatch inner) [
  | err e ↦ reject (to_sabcl_error decryption_failed e) (some inner)
  | ok response ↦
      elim (cfg.crypto.seal_response opened.response_secret opened.message_id response) [
        | err e ↦ reject (to_sabcl_error decryption_failed e) (some inner)
        | ok body ↦ record { status = 200; body = ok body; dispatched = some inner }
      ]
]

-- What is left once the message is claimed.
unfoldable pub serve : SabclRecipient → OpenedRequest → SabclRecipientOutcome
unfolding assert_capability answer
serve cfg opened = elim (cfg.crypto.parse_inner opened.payload) [
  | none ↦ reject malformed none
  | some inner ↦ elim (assert_capability cfg inner) [
    | err e ↦ reject (to_sabcl_error decryption_failed e) none
    | ok _ ↦ answer cfg opened inner
  ]
]

abbrev pub ttl_of : ℕ → SabclHeader → ℕ
ttl_of now h = max 1 (h.exp + 1 - now)

-- The times, in milliseconds, at which `openRequest`, the expiry and the store read the clock.
pub record Clock : Type 0 where
  pub opened_at : ℕ
  pub ttl_at : ℕ
  pub claimed_at : ℕ

-- The message is served if the store had not seen it; a store that fails is an error.
abbrev pub serve_claimed :
    SabclRecipient → OpenedRequest → Result SabclFailure Bool → SabclRecipientOutcome
serve_claimed cfg opened (err e) = reject (to_sabcl_error decryption_failed e) none
serve_claimed cfg opened (ok false) = reject replayed none
serve_claimed cfg opened (ok true) = serve cfg opened

abbrev pub handle_opened :
    {S : Type 0}
    → SabclRecipient
    → Claims S
    → Clock
    → SabclHeader
    → Result SabclFailure OpenedRequest
    → S
    → SabclRecipientOutcome × S
handle_opened cfg claim clock h (err e) s = (reject (to_sabcl_error decryption_failed e) none, s)
handle_opened cfg claim clock h (ok opened) s =
    let claimed = claim clock.claimed_at h.mid (ttl_of (clock.ttl_at / 1000) h) s in
    (serve_claimed cfg opened claimed.0, claimed.1)

-- The clock gives milliseconds; `this.now()` is in seconds. The envelope is what its schema reads.
unfoldable pub handle :
    {S : Type 0}
    → SabclRecipient
    → Claims S
    → Clock
    → Option SabclEnvelope
    → S
    → SabclRecipientOutcome × S
unfolding open_request serve
handle cfg claim clock none s = (reject malformed none, s)
handle cfg claim clock (some e) s =
    handle_opened cfg claim clock e.header (open_request cfg (clock.opened_at / 1000) e) s
