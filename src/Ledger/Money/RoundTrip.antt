-- ===== src/Ledger/Money/RoundTrip.antt =====
-- money.ts: `parseMinorUnits` on what `serializeMinorUnits` writes.
use native.Mathlib.Nat.{pow-suc}
use aegis_shield_phase.Prelude.{
  ℕ, zero, suc, ◌+◌, ◌/◌, ◌%◌, ◌^◌, ◌≤◌, ◌<◌, ◌≡◌, refl, ◌≢◌, Bool, true, false, not, [], ◌∷◌, inl,
  inr, arith, ◌==◌, length, Bool-cases, ==→≡, ap, ◌∙◌, ok,
}
use aegis_shield_phase.Prelude.Int.{ℤ, pos, negsuc, pos_part, neg_part}
use aegis_shield_phase.Ledger.Schema.{Chars}
use aegis_shield_phase.Ledger.Money.{
  all_digits, matches_whole, matches_minor_units, digits_value, big_int, parse_minor_units,
  emit_digits, serialize_whole, serialize_minor_units,
}

digits_value-emit_digits :
    (f n : ℕ) (out : Chars) → n ≤ f → digits_value 0 (emit_digits f n out) ≡ digits_value n out
unfolding emit_digits digits_value
digits_value-emit_digits zero n out h = ground arith
digits_value-emit_digits (suc f) n out h =
    ground (arith, digits_value-emit_digits f (n / 10) ((b'0' + n % 10) ∷ out))

all_digits-emit_digits :
    (f n : ℕ) (out : Chars) → all_digits out ≡ true → all_digits (emit_digits f n out) ≡ true
unfolding emit_digits all_digits
all_digits-emit_digits zero n out h = h
all_digits-emit_digits (suc f) n out h =
    ground (arith, all_digits-emit_digits f (n / 10) ((b'0' + n % 10) ∷ out))

length-emit_digits :
    (f n k : ℕ) (out : Chars) → n < 10 ^ k → length (emit_digits f n out) ≤ k + length out
unfolding emit_digits
length-emit_digits zero n k out h = omega arith
length-emit_digits (suc f) n zero out h = ground arith
length-emit_digits (suc f) n (suc k) out h =
    let p : n / 10 < 10 ^ k = omega (arith, pow-suc 10 k) in
    ground (arith, length-emit_digits f (n / 10) k ((b'0' + n % 10) ∷ out) p)

-- The first digit of a positive number is not 0.
abbrev leads : Chars → Bool
leads [] = false
leads (c ∷ cs) = not (c == b'0')

leads-emit_digits : (f n : ℕ) (out : Chars) → n ≤ f → n ≢ 0 → leads (emit_digits f n out) ≡ true
unfolding emit_digits
leads-emit_digits zero n out h p = absurd (omega arith)
leads-emit_digits (suc zero) n out h p = ground arith
leads-emit_digits (suc (suc f)) n out h p =
    ground (arith, leads-emit_digits (suc f) (n / 10) ((b'0' + n % 10) ∷ out))

matches_whole-leads :
    (s : Chars)
    → leads s ≡ true
    → all_digits s ≡ true
    → length s ≤ 24
    → (matches_whole s ≡ true)
      × (matches_minor_units s ≡ true)
      × (big_int s ≡ pos (digits_value 0 s))
unfolding matches_minor_units all_digits big_int
matches_whole-leads [] h d l = cc
matches_whole-leads (c ∷ s) h d l = ground arith

abbrev limit : ℕ
limit = 10 ^ 24

zero_reads :
    (matches_whole (serialize_whole 0) ≡ true)
    × (matches_minor_units (serialize_whole 0) ≡ true)
    × (big_int (serialize_whole 0) ≡ pos 0)
    × (digits_value 0 (serialize_whole 0) ≡ 0)
unfolding serialize_whole matches_minor_units big_int
zero_reads = (refl, refl, refl, refl)

serialize_whole_reads :
    (n : ℕ)
    → n < limit
    → (matches_whole (serialize_whole n) ≡ true)
      × (matches_minor_units (serialize_whole n) ≡ true)
      × (big_int (serialize_whole n) ≡ pos n)
      × (digits_value 0 (serialize_whole n) ≡ n)
unfolding serialize_whole
serialize_whole_reads n h = elim (Bool-cases (n == 0)) [
  | inl z ↦ rw (==→≡ n 0 z) zero_reads
  | inr p ↦
      let (whole, signed, value) =
        matches_whole-leads (emit_digits n n [])
          (leads-emit_digits n n [] (omega arith) (ground arith))
          (all_digits-emit_digits n n [] (unfold all_digits in refl))
          (omega (arith, length-emit_digits n n 24 [] h)) in
      let same : digits_value 0 (emit_digits n n []) ≡ n =
        digits_value-emit_digits n n [] (omega arith) ∙ (unfold digits_value in refl) in
      rw p (whole, signed, value ∙ ap pos same, same)
]

-- Every amount of at most 24 digits, of either sign, is read back as it was written.
pub parse_minor_units-serialize_minor_units :
    (z : ℤ)
    → pos_part z < limit
    → neg_part z < limit
    → parse_minor_units (serialize_minor_units z) ≡ ok z
unfolding parse_minor_units serialize_minor_units
parse_minor_units-serialize_minor_units (pos n) h k =
    let (whole, signed, value, digits) = serialize_whole_reads n h in rw (signed, value)
parse_minor_units-serialize_minor_units (negsuc n) h k =
    ground (arith, serialize_whole_reads (suc n) k)
