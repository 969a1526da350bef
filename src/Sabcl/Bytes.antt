-- ===== src/Sabcl/Bytes.antt =====
-- Node's `writeUInt32BE` and `readUInt32BE`, as padding.ts and canonical.ts use them.
use aegis_shield_phase.Prelude.{ℕ, ◌+◌, ◌*◌, ◌/◌, ◌%◌, ◌<◌, ◌≡◌, sym, ◌∙◌, ap, [], ◌∷◌, ◌++◌, arith}
use aegis_shield_phase.Sabcl.Protocol.{Bytes}

abbrev pub write_uint32_be : ℕ → Bytes
write_uint32_be n = n / 16777216 % 256 ∷ n / 65536 % 256 ∷ n / 256 % 256 ∷ n % 256 ∷ []

abbrev pub uint32_of : ℕ → ℕ → ℕ → ℕ → ℕ
uint32_of a b c d = a * 16777216 + b * 65536 + c * 256 + d

-- The first four bytes as a number; a shorter buffer is not read.
abbrev pub read_uint32_be : Bytes → ℕ
read_uint32_be (a ∷ b ∷ c ∷ d ∷ rest) = uint32_of a b c d
read_uint32_be _ = 0

pub read-write :
    (n : ℕ) (rest : Bytes) → n < 4294967296 → read_uint32_be (write_uint32_be n ++ rest) ≡ n
read-write n rest h = omega arith

pub write_uint32_be_inj :
    (m n : ℕ) (xs ys : Bytes)
    → m < 4294967296
    → n < 4294967296
    → write_uint32_be m ++ xs ≡ write_uint32_be n ++ ys
    → (m ≡ n) × (xs ≡ ys)
write_uint32_be_inj m n xs ys hm hn h =
    (sym (read-write m xs hm) ∙ ap read_uint32_be h ∙ read-write n ys hn, ap drop_four h)
  where
    drop_four : Bytes → Bytes
    drop_four (a ∷ b ∷ c ∷ d ∷ rest) = rest
    drop_four _ = []
