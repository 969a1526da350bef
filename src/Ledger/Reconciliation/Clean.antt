-- ===== src/Ledger/Reconciliation/Clean.antt =====
-- reconciliation.service.ts `run`: the books that pass, described without the queries.
use aegis_shield_phase.Prelude.{
  ℕ, ◌≤◌, ◌≡◌, refl, Bool, false, some, Option-cases, not, ◌||◌, List, [], ◌∷◌, arith, ltb, length,
  any, All, ◌↔◌, Bool-cases, inl, inr,
}
use aegis_shield_phase.Prelude.Int.{ℤ, pos, ◌-ℤ◌, ◌≤ℤ◌, eqb_ℤ, leb_ℤ, ltb_ℤ}
use aegis_shield_phase.Ledger.Schema.{
  debit, credit, liability, BalanceProjection, LedgerAccount, CustomerAccount, JournalEntry,
  JournalPosting, Db,
}
use aegis_shield_phase.Ledger.Journal.{account_by_id}
use aegis_shield_phase.Ledger.Journal.Effect.{posted_rows, total_rows}
use aegis_shield_phase.Ledger.Transactions.{entry_of}
use aegis_shield_phase.Ledger.Reconciliation.{
  postings_of, is_unbalanced, mismatches_currency, is_non_positive, drifts, misses_projection,
  is_unbacked, same_group, duplicate_groups, is_negative, system_account_types,
}

-- At least two postings, and equal sides.
abbrev pub IsBalanced : Db → JournalEntry → Type 0
IsBalanced db e =
    (2 ≤ length (postings_of db e))
    × (total_rows debit (postings_of db e) ≡ total_rows credit (postings_of db e))

abbrev pub HasOneCurrency : Db → JournalPosting → Type 0
HasOneCurrency db p =
    (e : JournalEntry) (a : LedgerAccount)
    → entry_of db p ≡ some e
    → account_by_id p.ledger_account_id db.ledger_accounts ≡ some a
    → (p.currency ≡ e.currency) × (p.currency ≡ a.currency)

abbrev pub IsPositive : Db → JournalPosting → Type 0
IsPositive db p = (e : JournalEntry) → entry_of db p ≡ some e → pos 1 ≤ℤ p.amount_minor

abbrev pub IsTallied : Db → LedgerAccount → Type 0
IsTallied db a =
    (p : BalanceProjection)
    → a.balance_projection ≡ some p
    → (p.debit_total_minor ≡ posted_rows debit a.id db.journal_postings)
      × (p.credit_total_minor ≡ posted_rows credit a.id db.journal_postings)

abbrev pub IsProjected : LedgerAccount → Type 0
IsProjected a = (p : BalanceProjection) × (a.balance_projection ≡ some p)

abbrev pub IsBacked : Db → CustomerAccount → Type 0
IsBacked db c =
    (a : LedgerAccount) × (account_by_id c.ledger_account_id db.ledger_accounts ≡ some a)
    × (a.account_class ≡ liability)
    × (a.currency ≡ c.currency)

abbrev pub IsCovered : Db → CustomerAccount → Type 0
IsCovered db c =
    (a : LedgerAccount) (p : BalanceProjection)
    → account_by_id c.ledger_account_id db.ledger_accounts ≡ some a
    → a.balance_projection ≡ some p
    → pos 0 ≤ℤ (p.credit_total_minor -ℤ p.debit_total_minor)

-- No two accounts of one customer in one currency.
abbrev pub IsUnique : List CustomerAccount → Type 0
IsUnique [] = Unit
IsUnique (c ∷ cs) = All (λ d. same_group c d ≡ false) cs × IsUnique cs

pub record IsClean (db : Db) : Type 0 where
  pub balanced : All (IsBalanced db) db.journal_entries
  pub one_currency : All (HasOneCurrency db) db.journal_postings
  pub positive : All (IsPositive db) db.journal_postings
  pub tallied : All (IsTallied db) db.ledger_accounts
  pub projected : All IsProjected db.ledger_accounts
  pub backed : All (IsBacked db) db.customer_accounts
  pub unique : IsUnique db.customer_accounts
  pub covered : All (IsCovered db) db.customer_accounts
  pub system : 2 ≤ system_account_types db

equal_lem : (a b : ℤ) → not (eqb_ℤ a b) ≡ false ↔ a ≡ b
equal_lem a b = ground arith

both_equal : (a b c d : ℤ) → (not (eqb_ℤ a b) || not (eqb_ℤ c d)) ≡ false ↔ (a ≡ b) × (c ≡ d)
both_equal a b c d = ground (arith, equal_lem a b, equal_lem c d)

enough_and_equal : (n : ℕ) (a b : ℤ) → (ltb n 2 || not (eqb_ℤ a b)) ≡ false ↔ (2 ≤ n) × (a ≡ b)
enough_and_equal n a b = ground (arith, equal_lem a b)

positive_z : (z : ℤ) → leb_ℤ z (pos 0) ≡ false ↔ pos 1 ≤ℤ z
positive_z z = ground arith

covered_z : (z : ℤ) → ltb_ℤ z (pos 0) ≡ false ↔ pos 0 ≤ℤ z
covered_z z = ground arith

-- What a row that a query leaves out means, for each query.
pub balanced_lem : (db : Db) (e : JournalEntry) → is_unbalanced db e ≡ false ↔ IsBalanced db e
balanced_lem db e =
    enough_and_equal (length (postings_of db e)) (total_rows debit (postings_of db e))
      (total_rows credit (postings_of db e))

pub one_currency_lem :
    (db : Db) (p : JournalPosting) → mismatches_currency db p ≡ false ↔ HasOneCurrency db p
one_currency_lem db p = elim (Option-cases (entry_of db p)) [
  | inl gone ↦ (λ h e a fe fa. absurd (ground (arith, gone, fe)), λ h. ground (arith, gone))
  | inr (e, found) ↦ elim (Option-cases (account_by_id p.ledger_account_id db.ledger_accounts)) [
    | inl gone ↦
        (λ h e' a fe fa. absurd (ground (arith, gone, fa)), λ h. ground (arith, found, gone))
    | inr (a, held) ↦ (
      λ h e' a' fe fa. ground (arith, found, held, fe, fa, h),
      λ h. ground (arith, found, held, h e a found held),
    )
  ]
]

pub positive_lem : (db : Db) (p : JournalPosting) → is_non_positive db p ≡ false ↔ IsPositive db p
positive_lem db p = elim (Option-cases (entry_of db p)) [
  | inl gone ↦ (λ h e fe. absurd (ground (arith, gone, fe)), λ h. ground (arith, gone))
  | inr (e, found) ↦ (
    λ h e' fe. (positive_z p.amount_minor).0 (ground (arith, found, h)),
    λ h. ground (arith, found, (positive_z p.amount_minor).1 (h e found)),
  )
]

pub tallied_lem : (db : Db) (a : LedgerAccount) → drifts db a ≡ false ↔ IsTallied db a
tallied_lem db a = elim (Option-cases a.balance_projection) [
  | inl gone ↦ (λ h p has. absurd (ground (arith, gone, has)), λ h. ground (arith, gone))
  | inr (p, held) ↦ (
    λ h p' has.
        (both_equal p'.debit_total_minor (posted_rows debit a.id db.journal_postings)
            p'.credit_total_minor (posted_rows credit a.id db.journal_postings)).0
          (ground (arith, has, h)),
    λ h. ground (
      arith,
      held,
      (both_equal p.debit_total_minor (posted_rows debit a.id db.journal_postings)
            p.credit_total_minor (posted_rows credit a.id db.journal_postings)).1
          (h p held),
    ),
  )
]

pub projected_lem : (a : LedgerAccount) → misses_projection a ≡ false ↔ IsProjected a
projected_lem a = elim (Option-cases a.balance_projection) [
  | inl gone ↦ (λ h. absurd (ground (arith, gone, h)), λ h. absurd (ground (arith, gone, h.1)))
  | inr (p, held) ↦ (λ h. (p, held), λ h. ground (arith, held))
]

pub backed_lem : (db : Db) (c : CustomerAccount) → is_unbacked db c ≡ false ↔ IsBacked db c
backed_lem db c = elim (Option-cases (account_by_id c.ledger_account_id db.ledger_accounts)) [
  | inl gone ↦ (λ h. absurd (ground (arith, gone, h)), λ h. absurd (ground (arith, gone, h.1)))
  | inr (a, held) ↦ (λ h. ground (arith, held, h), λ h. ground (arith, held, h))
]

pub covered_lem : (db : Db) (c : CustomerAccount) → is_negative db c ≡ false ↔ IsCovered db c
covered_lem db c = elim (Option-cases (account_by_id c.ledger_account_id db.ledger_accounts)) [
  | inl gone ↦ (λ h a p fa has. absurd (ground (arith, gone, fa)), λ h. ground (arith, gone))
  | inr (a, held) ↦ elim (Option-cases a.balance_projection) [
    | inl bare ↦ (
      λ h a' p fa has. absurd (ground (arith, held, bare, fa, has)),
      λ h. ground (arith, held, bare),
    )
    | inr (p, backing) ↦ (
      λ h a' p' fa has.
          (covered_z (p'.credit_total_minor -ℤ p'.debit_total_minor)).0
            (ground (arith, fa, has, h)),
      λ h. ground (
        arith,
        held,
        backing,
        (covered_z (p.credit_total_minor -ℤ p.debit_total_minor)).1 (h a p held backing),
      ),
    )
  ]
]

-- The grouping query, where no earlier account stands in the group of a later one.
Apart : List CustomerAccount → List CustomerAccount → Type 0
Apart seen cs = All (λ c. any (same_group c) seen ≡ false) cs

same_group_sym : (c d : CustomerAccount) → same_group c d ≡ same_group d c
same_group_sym c d = ground arith

none_any :
    (p : CustomerAccount → Bool) (xs : List CustomerAccount)
    → any p xs ≡ false ↔ All (λ d. p d ≡ false) xs
none_any p [] = (λ h. tt, λ h. refl)
none_any p (x ∷ xs) = ground (arith, none_any p xs)

Apart-step :
    (c : CustomerAccount) (seen cs : List CustomerAccount)
    → All (λ d. same_group c d ≡ false) cs
    → Apart seen cs
    → Apart (c ∷ seen) cs
unfolding Apart
Apart-step c seen [] fresh apart = tt
Apart-step c seen (d ∷ ds) (f, fresh) (h, apart) =
    (ground (arith, f, h, same_group_sym c d), Apart-step c seen ds fresh apart)

unique_lem :
    (seen cs : List CustomerAccount) → Apart seen cs → duplicate_groups seen cs ≡ [] ↔ IsUnique cs
unfolding Apart
unique_lem seen [] apart = (λ h. tt, λ h. refl)
unique_lem seen (c ∷ cs) (new, apart) = elim (Bool-cases (any (same_group c) cs)) [
  | inl again ↦ (
    λ h. absurd (ground (arith, new, again, h)),
    λ h. absurd (ground (arith, again, none_any (same_group c) cs, h.0)),
  )
  | inr fresh ↦
      let alone = (none_any (same_group c) cs).0 fresh in
      let rest = unique_lem (c ∷ seen) cs (Apart-step c seen cs alone apart) in
      (
        λ h. (alone, rest.0 (ground (arith, new, fresh, h))),
        λ h. ground (arith, new, fresh, rest.1 h.1),
      )
]

Apart-empty : (cs : List CustomerAccount) → Apart [] cs
unfolding Apart
Apart-empty [] = tt
Apart-empty (c ∷ cs) = (refl, Apart-empty cs)

pub duplicates_lem : (cs : List CustomerAccount) → duplicate_groups [] cs ≡ [] ↔ IsUnique cs
duplicates_lem cs = unique_lem [] cs (Apart-empty cs)
