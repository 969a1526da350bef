-- ===== src/Ledger/Journal/Checks.antt =====
-- What the checks of a journal establish: `assertBalanced`, the projected funds.
use aegis_shield_phase.Prelude.{
  ◌≤◌, ◌≡◌, false, not, List, [], ◌∷◌, inl, inr, arith, ltb, All, Bool-cases, throw_if, ◌>>◌, ◌||◌,
  ◌≢◌, length, ok, >>=-eq-ok,
}
use aegis_shield_phase.Prelude.Int.{ℤ, pos, ◌+ℤ◌, ◌≤ℤ◌, leb_ℤ, eqb_ℤ, eq_of_parts, int_laws}
use aegis_shield_phase.Ledger.Schema.{unbalanced_journal_error, PostingDirection, debit, credit}
use aegis_shield_phase.Ledger.Money.{signed_balance_minor, apply_direction}
use aegis_shield_phase.Ledger.Requests.{Posting, LockedAccount}
use aegis_shield_phase.Ledger.Journal.{assert_funds, sum_directions, assert_balanced}
use aegis_shield_phase.Ledger.Journal.Effect.{total, Direction-cases}

abbrev pub AllPositive : List Posting → Type 0
AllPositive = All (λ (p : Posting). pos 1 ≤ℤ p.amount_minor)

-- The loop adds each side's amounts to its total, and passes over positive amounts only.
sum_directions_totals :
    (d c : ℤ) (ps : List Posting) {t : ℤ × ℤ}
    → sum_directions (d, c) ps ≡ ok t
    → (t.0 ≡ d +ℤ total debit ps) × (t.1 ≡ c +ℤ total credit ps) × AllPositive ps
unfolding sum_directions apply_direction
sum_directions_totals d c [] h = (grind int_laws, grind int_laws, tt)
sum_directions_totals d c (p ∷ ps) {t} h = elim (Bool-cases (leb_ℤ p.amount_minor (pos 0))) [
  | inl low ↦ absurd (ground arith)
  | inr positive ↦
      let next = apply_direction p.direction p.amount_minor (d, c) in
      let ih = sum_directions_totals next.0 next.1 ps {t = t} (ground arith) in
      elim (Direction-cases p.direction) [
        | inl e ↦
            let (x, y, above) = rw e at ih in rw e (rw x (omega int_laws), y, (ground arith, above))
        | inr e ↦
            let (x, y, above) = rw e at ih in rw e (x, rw y (omega int_laws), (ground arith, above))
      ]
]

total_nonneg : (d : PostingDirection) (ps : List Posting) → AllPositive ps → pos 0 ≤ℤ total d ps
total_nonneg d [] h = omega arith
total_nonneg d (p ∷ ps) h = grind (int_laws, total_nonneg d ps h.1)

-- The last check of `assertBalanced`.
equal_sides :
    (d c : ℤ) {t : ℤ}
    → (throw_if (not (eqb_ℤ d c) || eqb_ℤ d (pos 0)) unbalanced_journal_error >> ok d) ≡ ok t
    → (d ≡ t) × (c ≡ t) × (d ≢ pos 0)
equal_sides d c h = elim (Bool-cases (eqb_ℤ d c)) [
  | inr differ ↦ absurd (ground arith)
  | inl same ↦ elim (Bool-cases (eqb_ℤ d (pos 0))) [
    | inl zero_total ↦ absurd (ground arith)
    | inr some_total ↦ (ground arith, eq_of_parts c _ (ground arith), λ e. ground arith)
  ]
]

-- A journal passes only with two lines or more, positive amounts, and equal sides of a total
-- above zero.
pub assert_balanced_sound :
    (ps : List Posting) {t : ℤ}
    → assert_balanced ps ≡ ok t
    → (2 ≤ length ps) × AllPositive ps × (pos 1 ≤ℤ t) × (total debit ps ≡ t) × (total credit ps ≡ t)
unfolding assert_balanced
assert_balanced_sound ps {t} h = elim (Bool-cases (ltb (length ps) 2)) [
  | inl short ↦ absurd (ground arith)
  | inr long ↦
      let ((d, c), sums, h') = >>=-eq-ok (sum_directions (pos 0, pos 0) ps) _ (rw long at h) in
      sides d c (sum_directions_totals (pos 0) (pos 0) ps sums) (equal_sides d c h') (ground arith)
]
  where
    sides :
        (d c : ℤ)
        → (d ≡ pos 0 +ℤ total debit ps) × (c ≡ pos 0 +ℤ total credit ps) × AllPositive ps
        → (d ≡ t) × (c ≡ t) × (d ≢ pos 0)
        → 2 ≤ length ps
        → (2 ≤ length ps)
          × AllPositive ps
          × (pos 1 ≤ℤ t)
          × (total debit ps ≡ t)
          × (total credit ps ≡ t)
    sides d c (x, y, above) (e, e', n) long =
        (long, above, grind (int_laws, total_nonneg debit ps above), grind int_laws, grind int_laws)

abbrev pub IsFunded : LockedAccount → Type 0
IsFunded a =
    a.allow_negative_balance ≡ false
    → pos 0 ≤ℤ signed_balance_minor a.account_class a.debit_total_minor a.credit_total_minor

-- No account that may not go negative passes with a negative balance.
pub assert_funds-All :
    (accounts : List LockedAccount) → assert_funds accounts ≡ ok tt → All IsFunded accounts
unfolding assert_funds
assert_funds-All [] h = tt
assert_funds-All (a ∷ accounts) h = (λ f. ground arith, assert_funds-All accounts (ground arith))
