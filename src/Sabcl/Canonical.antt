-- ===== src/Sabcl/Canonical.antt =====
-- packages/sabcl/src/protocol/canonical.ts, and `canonicalRequestHeader` of envelope.ts.
use aegis_shield_phase.Prelude.{
  ℕ, zero, suc, ◌/◌, ◌%◌, ◌<◌, ◌≡◌, refl, sym, ◌∙◌, ap, List, [], ◌∷◌, ◌++◌, arith, leb, length,
  Result, ok, ◌>>=◌, ◌>>◌, throw_if, >>=-eq-ok, ok_inj,
}
use aegis_shield_phase.Sabcl.Protocol.{Bytes, SabclFailure, range_error, SabclHeader}
use aegis_shield_phase.Sabcl.Bytes.{write_uint32_be, write_uint32_be_inj}

-- Each field is its length and its bytes; a length of 2 ^ 32 or more is not written.
unfoldable pub canonical_encode : List Bytes → Result SabclFailure Bytes
canonical_encode [] = ok []
canonical_encode (field ∷ fields) = do
  throw_if (leb 4294967296 (length field)) range_error
  rest ← canonical_encode fields
  ok (write_uint32_be (length field) ++ field ++ rest)

abbrev pub write_uint64_be : ℕ → Bytes
write_uint64_be n = write_uint32_be (n / 4294967296) ++ write_uint32_be (n % 4294967296)

-- A number above the safe integers is refused.
unfoldable pub canonical_uint : ℕ → Result SabclFailure Bytes
canonical_uint n = do throw_if (leb 9007199254740992 n) range_error; ok (write_uint64_be n)

unfoldable pub canonical_request_header : SabclHeader → Result SabclFailure Bytes
unfolding canonical_uint canonical_encode
canonical_request_header h = do
  iat ← canonical_uint h.iat
  exp ← canonical_uint h.exp
  hl ← canonical_uint h.hl
  pad ← canonical_uint h.pad
  canonical_encode (h.v ∷ h.mid ∷ h.rt ∷ h.skid ∷ h.rkid ∷ h.epk ∷ iat ∷ exp ∷ h.n ∷ hl ∷ pad ∷ [])

append_split :
    (xs xs' ys ys' : Bytes)
    → length xs ≡ length xs'
    → xs ++ ys ≡ xs' ++ ys'
    → (xs ≡ xs') × (ys ≡ ys')
append_split [] [] ys ys' same h = (refl, h)
append_split [] (x ∷ xs') ys ys' same h = absurd (omega (arith, same))
append_split (x ∷ xs) [] ys ys' same h = absurd (omega (arith, same))
append_split (x ∷ xs) (x' ∷ xs') ys ys' same h =
    let (rest, tails) = append_split xs xs' ys ys' (omega (arith, same)) (cc) in (cc, tails)

-- An encoding that is returned starts with the length of its first field.
record IsFramed (field : Bytes) (fields : List Bytes) (b : Bytes) : Type 0 where
  short : length field < 4294967296
  rest : Bytes
  encoded : canonical_encode fields ≡ ok rest
  whole : write_uint32_be (length field) ++ field ++ rest ≡ b

canonical_encode-IsFramed :
    (field : Bytes) (fields : List Bytes) (b : Bytes)
    → canonical_encode (field ∷ fields) ≡ ok b
    → IsFramed field fields b
unfolding canonical_encode
canonical_encode-IsFramed field fields b h =
    let (_, short, h1) = >>=-eq-ok (throw_if (leb 4294967296 (length field)) range_error) _ h in
    let (rest, encoded, h2) = >>=-eq-ok (canonical_encode fields) _ h1 in
    record { short = ground (arith, short); rest = rest; encoded = encoded; whole = ok_inj h2 }

framed_nonempty :
    (field : Bytes) (fields : List Bytes) → canonical_encode (field ∷ fields) ≡ ok [] → ⊥
framed_nonempty field fields h =
    let s = canonical_encode-IsFramed field fields [] h in
    absurd (ground (arith, ap length s.whole))

-- Two vectors of fields with one encoding are equal.
pub canonical_encode_inj :
    (xs ys : List Bytes) {b : Bytes}
    → canonical_encode xs ≡ ok b
    → canonical_encode ys ≡ ok b
    → xs ≡ ys
unfolding canonical_encode
canonical_encode_inj [] [] hx hy = refl
canonical_encode_inj [] (y ∷ ys) {b} hx hy = absurd (framed_nonempty y ys (hy ∙ sym hx))
canonical_encode_inj (x ∷ xs) [] {b} hx hy = absurd (framed_nonempty x xs (hx ∙ sym hy))
canonical_encode_inj (x ∷ xs) (y ∷ ys) {b} hx hy =
    let fx = canonical_encode-IsFramed x xs b hx in
    let fy = canonical_encode-IsFramed y ys b hy in
    let (size, tails) =
      write_uint32_be_inj (length x) (length y) (x ++ fx.rest) (y ++ fy.rest) fx.short fy.short
        (fx.whole ∙ sym fy.whole) in
    let (one, rests) = append_split x y fx.rest fy.rest size tails in
    λ i. one i ∷ canonical_encode_inj xs ys {b = fy.rest} (rw (← rests) fx.encoded) fy.encoded i

canonical_uint_inj :
    (m n : ℕ) {b b' : Bytes} → canonical_uint m ≡ ok b → canonical_uint n ≡ ok b' → b ≡ b' → m ≡ n
unfolding canonical_uint
canonical_uint_inj m n hm hn same =
    let (_, sm, em) = >>=-eq-ok (throw_if (leb 9007199254740992 m) range_error) _ hm in
    let (_, sn, en) = >>=-eq-ok (throw_if (leb 9007199254740992 n) range_error) _ hn in
    let small_m : m < 9007199254740992 = ground (arith, sm) in
    let small_n : n < 9007199254740992 = ground (arith, sn) in
    let (high, low) =
      write_uint32_be_inj (m / 4294967296) (n / 4294967296) (write_uint32_be (m % 4294967296))
        (write_uint32_be (n % 4294967296)) (omega (arith, small_m)) (omega (arith, small_n))
        (ok_inj em ∙ same ∙ sym (ok_inj en)) in
    let (low', _) =
      write_uint32_be_inj (m % 4294967296) (n % 4294967296) [] [] (omega arith) (omega arith)
        (ap (λ xs. xs ++ []) low) in
    omega (arith, high, low')

-- The fields that the header encodes, with the bytes of its numbers.
record IsEncoded (h : SabclHeader) (b : Bytes) : Type 0 where
  iat : Bytes
  exp : Bytes
  hl : Bytes
  pad : Bytes
  at_iat : canonical_uint h.iat ≡ ok iat
  at_exp : canonical_uint h.exp ≡ ok exp
  at_hl : canonical_uint h.hl ≡ ok hl
  at_pad : canonical_uint h.pad ≡ ok pad
  whole :
      canonical_encode
        (h.v ∷ h.mid ∷ h.rt ∷ h.skid ∷ h.rkid ∷ h.epk ∷ iat ∷ exp ∷ h.n ∷ hl ∷ pad ∷ [])
      ≡ ok b

canonical_request_header-IsEncoded :
    (h : SabclHeader) (b : Bytes) → canonical_request_header h ≡ ok b → IsEncoded h b
unfolding canonical_request_header
canonical_request_header-IsEncoded h b made =
    let (iat, at_iat, h1) = >>=-eq-ok (canonical_uint h.iat) _ made in
    let (exp, at_exp, h2) = >>=-eq-ok (canonical_uint h.exp) _ h1 in
    let (hl, at_hl, h3) = >>=-eq-ok (canonical_uint h.hl) _ h2 in
    let (pad, at_pad, h4) = >>=-eq-ok (canonical_uint h.pad) _ h3 in
    record {
      iat = iat;
      exp = exp;
      hl = hl;
      pad = pad;
      at_iat = at_iat;
      at_exp = at_exp;
      at_hl = at_hl;
      at_pad = at_pad;
      whole = h4;
    }

nth : ℕ → List Bytes → Bytes
nth i [] = []
nth zero (x ∷ xs) = x
nth (suc i) (x ∷ xs) = nth i xs

-- Two headers with one encoding agree in every field, so a signature over the encoding binds the
-- identifier, the route, both keys, the times, the hop limit and the padding.
pub canonical_request_header_inj :
    (g h : SabclHeader) {b : Bytes}
    → canonical_request_header g ≡ ok b
    → canonical_request_header h ≡ ok b
    → g ≡ h
unfolding nth
canonical_request_header_inj g h {b} hg hh =
    let x = canonical_request_header-IsEncoded g b hg in
    let y = canonical_request_header-IsEncoded h b hh in
    let same = canonical_encode_inj _ _ x.whole y.whole in
    λ i. record {
      v = nth 0 (same i);
      mid = nth 1 (same i);
      rt = nth 2 (same i);
      skid = nth 3 (same i);
      rkid = nth 4 (same i);
      epk = nth 5 (same i);
      iat = canonical_uint_inj g.iat h.iat x.at_iat y.at_iat (ap (nth 6) same) i;
      exp = canonical_uint_inj g.exp h.exp x.at_exp y.at_exp (ap (nth 7) same) i;
      n = nth 8 (same i);
      hl = canonical_uint_inj g.hl h.hl x.at_hl y.at_hl (ap (nth 9) same) i;
      pad = canonical_uint_inj g.pad h.pad x.at_pad y.at_pad (ap (nth 10) same) i;
    }
