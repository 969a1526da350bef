-- ===== src/Sabcl/Tests.antt =====
-- One envelope that is handled twice, a padded payload, and the theorems on them.
use aegis_shield_phase.Prelude.{
  ℕ, ◌≤◌, ◌<◌, ◌≡◌, ◌⊎◌, refl, true, false, none, some, [], ◌∷◌, arith, ok, err,
}
use aegis_shield_phase.Sabcl.Protocol.{
  Bytes, oversized, replayed, sabcl_error, range_error, SabclHeader, SabclEnvelope,
  sabcl_protocol_version,
}
use aegis_shield_phase.Sabcl.Padding.{fill, pad_payload, unpad_payload, IsPadded, pad_payload-cases}
use aegis_shield_phase.Sabcl.Canonical.{
  canonical_encode, canonical_uint, canonical_request_header, canonical_request_header_inj,
}
use aegis_shield_phase.Sabcl.Replay.{Seen, Claims, remember, redis_remember}
use aegis_shield_phase.Sabcl.Replay.Laws.{remember-IsClaimStore, redis_remember-IsClaimStore}
use aegis_shield_phase.Sabcl.Recipient.{
  get_method, SabclInnerRequest, SabclRecipient, peer, check_header, decrypt, open_request,
  assert_capability, answer, serve, Clock, handle,
}
use aegis_shield_phase.Sabcl.Recipient.Once.{run_calls, dispatched_once}

abbrev header : SabclHeader
header = record {
  v = sabcl_protocol_version;
  mid = 21 ∷ [];
  rt = 22 ∷ [];
  skid = 23 ∷ [];
  rkid = 24 ∷ [];
  epk = 25 ∷ [];
  iat = 2;
  exp = 32;
  n = 26 ∷ [];
  hl = 2;
  pad = 512;
}

header_encodes : (b : Bytes) × (canonical_request_header header ≡ ok b)
unfolding canonical_request_header canonical_uint canonical_encode
header_encodes = (_, refl)

canonical_request_header_inj_example : header ≡ header
canonical_request_header_inj_example =
    canonical_request_header_inj header header {b = header_encodes.0} header_encodes.1
      header_encodes.1

pad_payload-cases_example :
    IsPadded (7 ∷ 8 ∷ [])
    ⊎ ((65532 < 2) × (2 ≤ 65536) × (pad_payload (7 ∷ 8 ∷ []) ≡ err range_error))
    ⊎ ((65536 < 2) × (pad_payload (7 ∷ 8 ∷ []) ≡ err (sabcl_error oversized)))
pad_payload-cases_example = pad_payload-cases (7 ∷ 8 ∷ [])

abbrev request : SabclInnerRequest
request = record {
  op = b'a' ∷ b'.' ∷ b'b' ∷ [];
  method = get_method;
  path = b'/' ∷ b'x' ∷ [];
  body = 0;
}

abbrev recipient : SabclRecipient
recipient = record {
  own_key_id = 24 ∷ [];
  peers =
      record { key_id = 23 ∷ []; signing_public_key = []; revoked = false; not_after = some 90 }
      ∷ [];
  capabilities =
      record {
        operation_prefix = b'a' ∷ [];
        path_patterns = (λ path. true) ∷ [];
        methods = get_method ∷ [];
      }
      ∷ [];
  crypto = record {
    from_base64_url = λ text. ok text;
    verify_bytes = λ key message signature. true;
    shared_secret = λ text. ok text;
    derive_key = λ secret nonce info. secret;
    aead_open = λ key nonce ciphertext tag aad. ok (fill ciphertext 512);
    parse_json = λ bytes. some 5;
    parse_inner = λ value. some request;
    decode_uri = λ text. some text;
    seal_response = λ secret mid response. ok response;
  };
  dispatch = λ inner. ok 1;
}

abbrev envelope : SabclEnvelope
envelope = record { header = header; ct = 1 ∷ 2 ∷ []; tag = []; sig = [] }

abbrev at_ms : ℕ → Clock
at_ms ms = record { opened_at = ms; ttl_at = ms; claimed_at = ms }

served : (handle recipient remember (at_ms 4000) (some envelope) []).0.dispatched ≡ some request
unfolding handle open_request check_header peer decrypt unpad_payload canonical_request_header
    canonical_uint canonical_encode remember serve assert_capability answer
served = refl

second_is_replayed :
    (handle recipient remember
      (at_ms 9000)
      (some envelope)
      (handle recipient remember (at_ms 4000) (some envelope) []).1).0.body
    ≡ err replayed
unfolding handle open_request check_header peer decrypt unpad_payload canonical_request_header
    canonical_uint canonical_encode remember serve assert_capability answer
second_is_replayed = refl

-- Opened in the last millisecond of its time and claimed in the next, the replay is dispatched.
late_claim_is_served :
    (handle recipient remember
      (record { opened_at = 32999; ttl_at = 33000; claimed_at = 33000 })
      (some envelope)
      (handle recipient remember (at_ms 4000) (some envelope) []).1).0.dispatched
    ≡ some request
unfolding handle open_request check_header peer decrypt unpad_payload canonical_request_header
    canonical_uint canonical_encode remember serve assert_capability answer
late_claim_is_served = refl

-- A Redis whose `SET NX EX` is the store above, under the service's prefix.
abbrev redis : Claims Seen
redis = redis_remember remember (b'p' ∷ b':' ∷ [])

served_on_redis :
    (handle recipient redis (at_ms 4000) (some envelope) []).0.dispatched ≡ some request
unfolding handle open_request check_header peer decrypt unpad_payload canonical_request_header
    canonical_uint canonical_encode remember redis_remember serve assert_capability answer
served_on_redis = refl

dispatched_once_example : ¬ (
    (handle recipient redis (at_ms 9000) (some envelope) (
      run_calls redis
        (record { recipient = recipient; clock = at_ms 5000; message = none } ∷ [])
        (handle recipient redis (at_ms 4000) (some envelope) []).1)).0.dispatched
    ≡ some request)
dispatched_once_example =
    dispatched_once redis
      (redis_remember-IsClaimStore remember (b'p' ∷ b':' ∷ []) remember-IsClaimStore) recipient
      recipient (at_ms 4000) (at_ms 9000) envelope
      (record { recipient = recipient; clock = at_ms 5000; message = none } ∷ []) []
      {inner = request} {inner' = request} (omega arith) served_on_redis (omega arith, tt)
      (omega arith)
