-- ===== src/Ledger/Money.antt =====
-- services/ledger/src/money/money.ts: amounts in minor units, as integers and as decimal texts.
pub mod RoundTrip
use aegis_shield_phase.Prelude.{
  ℕ, zero, suc, ◌+◌, ◌-◌, ◌*◌, ◌/◌, ◌%◌, Bool, true, false, ◌&&◌, Option, none, some, List, [], ◌∷◌,
  ◌++◌, ltb, leb, ◌==◌, if◌then◌else◌, length, Result, ok, err,
}
use aegis_shield_phase.Prelude.Int.{ℤ, pos, negsuc, ◌+ℤ◌, ◌-ℤ◌}
use aegis_shield_phase.Ledger.Schema.{
  Chars, LedgerAccountClass, asset, liability, equity, revenue, expense, PostingDirection, debit,
  credit, Failure, type_error,
}

pub is_digit : ℕ → Bool
is_digit c = leb b'0' c && leb c b'9'

pub all_digits : Chars → Bool
unfolding is_digit
all_digits [] = true
all_digits (c ∷ cs) = is_digit c && all_digits cs

-- `0|[1-9]\d{0,23}`
pub matches_whole : Chars → Bool
unfolding is_digit all_digits
matches_whole [] = false
matches_whole (c ∷ cs) =
    if c == b'0' then leb (length cs) 0 else is_digit c && all_digits cs && leb (length cs) 23

-- `-?(?:0|[1-9]\d{0,23})`
unfoldable pub matches_minor_units : Chars → Bool
unfolding matches_whole
matches_minor_units [] = false
matches_minor_units (c ∷ cs) = if c == b'-' then matches_whole cs else matches_whole (c ∷ cs)

-- `positiveMinorUnitsSchema` (packages/contracts/src/accounts/v1.ts): `[1-9]\d{0,23}`.
unfoldable pub is_positive_minor_units : Chars → Bool
unfolding is_digit all_digits
is_positive_minor_units [] = false
is_positive_minor_units (c ∷ cs) = leb b'1' c && leb c b'9' && all_digits cs && leb (length cs) 23

-- The digits' value, read from the left.
pub digits_value : ℕ → Chars → ℕ
digits_value n [] = n
digits_value n (c ∷ cs) = digits_value (n * 10 + (c - b'0')) cs

-- -n, where -0 is 0.
pub negate : ℕ → ℤ
negate zero = pos 0
negate (suc n) = negsuc n

-- `BigInt(text)` at a text of decimal digits with an optional minus sign.
unfoldable pub big_int : Chars → ℤ
unfolding digits_value negate
big_int [] = pos 0
big_int (c ∷ cs) = if c == b'-' then negate (digits_value 0 cs) else pos (digits_value 0 (c ∷ cs))

unfoldable pub parse_minor_units : Chars → Result Failure ℤ
unfolding matches_minor_units big_int
parse_minor_units value = if matches_minor_units value then ok (big_int value) else err type_error

-- The digits of a positive number before `out`; `fuel` bounds their count.
pub emit_digits : ℕ → ℕ → Chars → Chars
emit_digits zero n out = out
emit_digits (suc fuel) n out =
    let rest = emit_digits fuel (n / 10) ((b'0' + n % 10) ∷ out) in if n == 0 then out else rest

-- `n.toString(10)` at n ≥ 0; n digits are more than enough.
pub serialize_whole : ℕ → Chars
unfolding emit_digits
serialize_whole n = if n == 0 then b'0' ∷ [] else emit_digits n n []

unfoldable pub serialize_minor_units : ℤ → Chars
unfolding serialize_whole
serialize_minor_units (pos n) = serialize_whole n
serialize_minor_units (negsuc n) = b'-' ∷ serialize_whole (suc n)

-- `DEBIT_POSITIVE_CLASSES.has`
abbrev pub debit_positive : LedgerAccountClass → Bool
debit_positive asset = true
debit_positive expense = true
debit_positive _ = false

unfoldable pub signed_balance_minor : LedgerAccountClass → ℤ → ℤ → ℤ
signed_balance_minor account_class debit_total credit_total =
    if debit_positive account_class
    then debit_total -ℤ credit_total
    else credit_total -ℤ debit_total

-- The totals as (debit, credit).
unfoldable pub apply_direction : PostingDirection → ℤ → ℤ × ℤ → ℤ × ℤ
apply_direction debit amount (d, c) = (d +ℤ amount, c)
apply_direction credit amount (d, c) = (d, c +ℤ amount)
