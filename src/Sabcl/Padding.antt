-- ===== src/Sabcl/Padding.antt =====
-- packages/sabcl/src/protocol/padding.ts, and `paddingBucketFor` of envelope.ts.
use aegis_shield_phase.Prelude.{
  ℕ, zero, suc, ◌+◌, ◌-◌, ◌≤◌, ◌<◌, ◌≡◌, refl, ap, true, false, List, [], ◌∷◌, ◌++◌, arith, leb,
  ltb, length, length-append, find, take, drop, replicate, take-append, Result, ok, err, ◌>>=◌,
  ◌>>◌, throw_if, or_throw, contains, ◌⊎◌, Bool-cases, Result-cases, inl, inr,
}
use aegis_shield_phase.Sabcl.Protocol.{
  Bytes, sabcl_max_plaintext_bytes, malformed, oversized, SabclFailure, sabcl_error, range_error,
}
use aegis_shield_phase.Sabcl.Bytes.{write_uint32_be, read_uint32_be, read-write}

abbrev pub sabcl_padding_buckets : List ℕ
sabcl_padding_buckets = 512 ∷ 1024 ∷ 2048 ∷ 4096 ∷ 8192 ∷ 16384 ∷ 32768 ∷ 65536 ∷ []

unfoldable pub padding_bucket_for : ℕ → Result SabclFailure ℕ
padding_bucket_for n = or_throw (find (λ size. leb n size) sabcl_padding_buckets) range_error

abbrev pub length_prefix_bytes : ℕ
length_prefix_bytes = 4

pub record PaddedPayload : Type 0 where
  pub padded : Bytes
  pub bucket : ℕ

-- `Buffer.alloc(bucket)` with the length and the payload written over its first bytes.
abbrev pub fill : Bytes → ℕ → Bytes
fill payload bucket =
    write_uint32_be (length payload)
    ++ payload
    ++ replicate (bucket - (length payload + length_prefix_bytes)) 0

unfoldable pub pad_payload : Bytes → Result SabclFailure PaddedPayload
unfolding padding_bucket_for
pad_payload payload = do
  throw_if (ltb sabcl_max_plaintext_bytes (length payload)) (sabcl_error oversized)
  bucket ← padding_bucket_for (length payload + length_prefix_bytes)
  ok (record { padded = fill payload bucket; bucket = bucket })

unfoldable pub unpad_payload : Bytes → Result SabclFailure Bytes
unpad_payload padded = do
  throw_if (ltb (length padded) length_prefix_bytes) (sabcl_error malformed)
  throw_if (ltb (length padded - length_prefix_bytes) (read_uint32_be padded))
      (sabcl_error malformed)
  ok (take (read_uint32_be padded) (drop length_prefix_bytes padded))

length-replicate : (n a : ℕ) → length (replicate n a) ≡ n
length-replicate zero a = refl
length-replicate (suc n) a = omega (arith, length-replicate n a)

-- A bucket that is found holds the bytes, and is no larger than the largest.
bucket_holds :
    (n b : ℕ)
    → padding_bucket_for n ≡ ok b
    → (n ≤ b) × (b ≤ 65536) × (contains sabcl_padding_buckets b ≡ true)
unfolding padding_bucket_for
bucket_holds n b h = ground arith

bucket_exists : (n : ℕ) (e : SabclFailure) → n ≤ 65536 → padding_bucket_for n ≡ err e → ⊥
unfolding padding_bucket_for
bucket_exists n e small h = ground arith

no_bucket : (n : ℕ) → 65536 < n → padding_bucket_for n ≡ err range_error
unfolding padding_bucket_for
no_bucket n h = ground arith

bucket_found :
    (n : ℕ)
    → n ≤ 65536
    → (b : ℕ) × (padding_bucket_for n ≡ ok b)
      × (n ≤ b)
      × (b ≤ 65536)
      × (contains sabcl_padding_buckets b ≡ true)
bucket_found n small = elim (Result-cases (padding_bucket_for n)) [
  | inl (b, found) ↦
      let (holds, small, listed) = bucket_holds n b found in (b, found, holds, small, listed)
  | inr (e, failed) ↦ absurd (bucket_exists n e small failed)
]

length-fill : (p : Bytes) (b : ℕ) → length p + 4 ≤ b → length (fill p b) ≡ b
length-fill p b h = omega (
  arith,
  length-append p (replicate (b - (length p + 4)) 0),
  length-replicate (b - (length p + 4)) 0,
)

drop-fill : (p : Bytes) (b : ℕ) → drop 4 (fill p b) ≡ p ++ replicate (b - (length p + 4)) 0
drop-fill p b = refl

unpad-fill : (p : Bytes) (b : ℕ) → length p + 4 ≤ b → b ≤ 65536 → unpad_payload (fill p b) ≡ ok p
unfolding unpad_payload
unpad-fill p b h small =
    let len = length-fill p b h in
    let prefix : read_uint32_be (fill p b) ≡ length p =
      read-write (length p) (p ++ replicate (b - (length p + 4)) 0) (omega (arith, h, small)) in
    let enough : ltb (length (fill p b)) 4 ≡ false = ground (arith, len, h) in
    let inside : ltb (length (fill p b) - 4) (read_uint32_be (fill p b)) ≡ false =
      ground (arith, len, prefix, h) in
    rw (enough, inside, prefix) (ap ok (take-append p (replicate (b - (length p + 4)) 0)))

-- A payload that fits: it is padded to one of the buckets, and unpadded to itself.
pub record IsPadded (p : Bytes) : Type 0 where
  pub fits : length p ≤ 65532
  pub r : PaddedPayload
  pub made : pad_payload p ≡ ok r
  pub back : unpad_payload r.padded ≡ ok p
  pub sized : length r.padded ≡ r.bucket
  pub listed : contains sabcl_padding_buckets r.bucket ≡ true

pad-IsPadded : (p : Bytes) → length p ≤ 65532 → IsPadded p
unfolding pad_payload
pad-IsPadded p fits =
    let (b, found, holds, small, listed) = bucket_found (length p + 4) (omega (arith, fits)) in
    let below : ltb 65536 (length p) ≡ false = ground (arith, fits) in
    record {
      fits = fits;
      r = record { padded = fill p b; bucket = b };
      made = rw (below, found) refl;
      back = unpad-fill p b holds small;
      sized = length-fill p b holds;
      listed = listed;
    }

-- Every payload of 65532 bytes at most is padded to the size of one of the buckets and unpadded to
-- itself; one of 65533 to 65536 bytes passes the ceiling and is refused with a RangeError; a
-- larger one is refused with SABCL_OVERSIZED.
pub pad_payload-cases :
    (p : Bytes)
    → IsPadded p
      ⊎ ((65532 < length p) × (length p ≤ 65536) × (pad_payload p ≡ err range_error))
      ⊎ ((65536 < length p) × (pad_payload p ≡ err (sabcl_error oversized)))
unfolding pad_payload
pad_payload-cases p = elim (Bool-cases (leb (length p) 65532)) [
  | inl fits ↦ inl (pad-IsPadded p (ground (arith, fits)))
  | inr above ↦ elim (Bool-cases (ltb 65536 (length p))) [
    | inl over ↦ inr (inr (ground (arith, over), rw over refl))
    | inr within ↦ inr (
        inl (
          ground (arith, above),
          ground (arith, within),
          rw (within, no_bucket (length p + 4) (ground (arith, above))) refl,
        ))
  ]
]
