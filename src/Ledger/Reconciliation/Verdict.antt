-- ===== src/Ledger/Reconciliation/Verdict.antt =====
-- reconciliation.service.ts `run`: the status is the description of the books.
use aegis_shield_phase.Prelude.{
  ℕ, ◌≤◌, ◌≡◌, refl, false, List, [], ◌∷◌, Option, none, arith, ltb, filter, any, if◌then◌else◌,
  All, ◌↔◌, Bool-cases, inl, inr,
}
use aegis_shield_phase.Ledger.Schema.{Ident, LedgerAccount, CustomerAccount, JournalEntry, Db}
use aegis_shield_phase.Ledger.Reconciliation.{
  unbalanced_journal_issue, posting_currency_mismatch, non_positive_posting_amount,
  balance_projection_drift, missing_balance_projection, customer_account_ledger_mismatch,
  duplicate_default_account, negative_customer_balance, missing_system_account, IssueCode,
  ReconciliationIssue, ReconciliationResult, pass, is_unbalanced, mismatches_currency,
  is_non_positive, drifts, misses_projection, is_unbacked, duplicate_groups, is_negative,
  system_account_types, add_issues, reference_of, rows_of, issues_of, is_error, status_of,
  anomaly_of, run,
}
use aegis_shield_phase.Ledger.Reconciliation.Queries.{
  Queries, add_all, no_errors, no_rows, query_lem, group_query_lem,
}
use aegis_shield_phase.Ledger.Reconciliation.Clean.{
  IsClean, IsBalanced, HasOneCurrency, IsPositive, IsTallied, IsProjected, IsBacked, IsCovered,
  balanced_lem, one_currency_lem, positive_lem, tallied_lem, projected_lem, backed_lem,
  duplicates_lem, covered_lem,
}

-- The rows of the last query: one where there are too few system accounts.
abbrev system_rows : ℕ → List (Option Ident)
system_rows n = if ltb n 2 then none ∷ [] else []

-- The queries of `run`, in their order.
abbrev queries : (Ident → Ident) → Db → Queries
queries shorten db =
    (
      unbalanced_journal_issue,
      rows_of shorten (λ (e : JournalEntry). e.reference)
          (filter (is_unbalanced db) db.journal_entries),
    )
    ∷ (
      posting_currency_mismatch,
      rows_of shorten (reference_of db) (filter (mismatches_currency db) db.journal_postings),
    )
    ∷ (
      non_positive_posting_amount,
      rows_of shorten (reference_of db) (filter (is_non_positive db) db.journal_postings),
    )
    ∷ (
      balance_projection_drift,
      rows_of shorten (λ (a : LedgerAccount). a.code) (filter (drifts db) db.ledger_accounts),
    )
    ∷ (
      missing_balance_projection,
      rows_of shorten (λ (a : LedgerAccount). a.code) (filter misses_projection db.ledger_accounts),
    )
    ∷ (
      customer_account_ledger_mismatch,
      rows_of shorten (λ (c : CustomerAccount). c.masked_reference)
          (filter (is_unbacked db) db.customer_accounts),
    )
    ∷ (
      duplicate_default_account,
      rows_of shorten (λ i. i) (duplicate_groups [] db.customer_accounts),
    )
    ∷ (
      negative_customer_balance,
      rows_of shorten (λ (c : CustomerAccount). c.masked_reference)
          (filter (is_negative db) db.customer_accounts),
    )
    ∷ (missing_system_account, system_rows (system_account_types db))
    ∷ []

issues_of-queries :
    (shorten : Ident → Ident) (db : Db) → issues_of shorten db ≡ add_all (queries shorten db) []
unfolding issues_of
issues_of-queries shorten db = elim (Bool-cases (ltb (system_account_types db) 2)) [
  | inl few ↦ rw few refl
  | inr enough ↦ rw (enough, add_issues) refl
]

enough_lem : (n : ℕ) → system_rows n ≡ [] ↔ 2 ≤ n
enough_lem n = ground arith

module _ (shorten : Ident → Ident) (db : Db) where
  sides_query :
      rows_of shorten
          (λ (e : JournalEntry). e.reference)
          (filter (is_unbalanced db) db.journal_entries)
        ≡ []
      ↔ All (IsBalanced db) db.journal_entries
  sides_query =
      query_lem (is_unbalanced db) (IsBalanced db) shorten _ (balanced_lem db) db.journal_entries

  currency_query :
      rows_of shorten (reference_of db) (filter (mismatches_currency db) db.journal_postings) ≡ []
      ↔ All (HasOneCurrency db) db.journal_postings
  currency_query =
      query_lem (mismatches_currency db) (HasOneCurrency db) shorten _ (one_currency_lem db)
        db.journal_postings

  amount_query :
      rows_of shorten (reference_of db) (filter (is_non_positive db) db.journal_postings) ≡ []
      ↔ All (IsPositive db) db.journal_postings
  amount_query =
      query_lem (is_non_positive db) (IsPositive db) shorten _ (positive_lem db) db.journal_postings

  drift_query :
      rows_of shorten (λ (a : LedgerAccount). a.code) (filter (drifts db) db.ledger_accounts) ≡ []
      ↔ All (IsTallied db) db.ledger_accounts
  drift_query = query_lem (drifts db) (IsTallied db) shorten _ (tallied_lem db) db.ledger_accounts

  projection_query :
      rows_of shorten (λ (a : LedgerAccount). a.code) (filter misses_projection db.ledger_accounts)
        ≡ []
      ↔ All IsProjected db.ledger_accounts
  projection_query =
      query_lem misses_projection IsProjected shorten _ projected_lem db.ledger_accounts

  backing_query :
      rows_of shorten
          (λ (c : CustomerAccount). c.masked_reference)
          (filter (is_unbacked db) db.customer_accounts)
        ≡ []
      ↔ All (IsBacked db) db.customer_accounts
  backing_query =
      query_lem (is_unbacked db) (IsBacked db) shorten _ (backed_lem db) db.customer_accounts

  negative_query :
      rows_of shorten
          (λ (c : CustomerAccount). c.masked_reference)
          (filter (is_negative db) db.customer_accounts)
        ≡ []
      ↔ All (IsCovered db) db.customer_accounts
  negative_query =
      query_lem (is_negative db) (IsCovered db) shorten _ (covered_lem db) db.customer_accounts

  IsClean-no_rows :
      All (λ (q : IssueCode × List (Option Ident)). q.1 ≡ []) (queries shorten db) → IsClean db
  IsClean-no_rows (b, (c, (a, (d, (m, (u, (g, (n, (t, end))))))))) = record {
    balanced = sides_query.0 b;
    one_currency = currency_query.0 c;
    positive = amount_query.0 a;
    tallied = drift_query.0 d;
    projected = projection_query.0 m;
    backed = backing_query.0 u;
    unique = (duplicates_lem db.customer_accounts).0 ((group_query_lem shorten _).0 g);
    covered = negative_query.0 n;
    system = (enough_lem (system_account_types db)).0 t;
  }

  no_rows_of_clean :
      IsClean db → All (λ (q : IssueCode × List (Option Ident)). q.1 ≡ []) (queries shorten db)
  no_rows_of_clean clean = (
    sides_query.1 clean.balanced,
    (
      currency_query.1 clean.one_currency,
      (
        amount_query.1 clean.positive,
        (
          drift_query.1 clean.tallied,
          (
            projection_query.1 clean.projected,
            (
              backing_query.1 clean.backed,
              (
                (group_query_lem shorten _).1
                    ((duplicates_lem db.customer_accounts).1 clean.unique),
                (
                  negative_query.1 clean.covered,
                  ((enough_lem (system_account_types db)).1 clean.system, tt),
                ),
              ),
            ),
          ),
        ),
      ),
    ),
  )

  errors_IsClean : any is_error (issues_of shorten db) ≡ false ↔ IsClean db
  errors_IsClean = (
    λ h. IsClean-no_rows (no_errors (queries shorten db) (rw (← issues_of-queries shorten db) h)),
    λ clean.
        rw (issues_of-queries shorten db, no_rows (queries shorten db) (no_rows_of_clean clean))
          refl,
  )

pass_lem :
    (issues : List ReconciliationIssue) → status_of issues ≡ pass ↔ any is_error issues ≡ false
pass_lem issues = ground arith

quiet_lem :
    (issues : List ReconciliationIssue)
    → anomaly_of (status_of issues) issues ≡ none ↔ any is_error issues ≡ false
quiet_lem [] = ground arith
quiet_lem (i ∷ is) = ground arith

↔_trans : {A B C : Type 0} → A ↔ B → B ↔ C → A ↔ C
↔_trans (f, f') (g, g') = (λ a. g (f a), λ c. f' (g' c))

-- A run of the reconciliation returns PASS exactly if the books are clean: every journal has two
-- postings at least and equal sides, every posting the currency of its journal and its account and
-- a positive amount, every account a projection that is the sums of its postings, every customer
-- account a liability of its currency under it, alone in its customer and currency, and not
-- negative, and there are two types of system accounts at least. An anomaly is reported otherwise,
-- and only then.
pub run-IsClean :
    (shorten : Ident → Ident) (now : ℕ) (db : Db) (runs : List (ReconciliationResult × ℕ))
    → ((run shorten now db runs).result.status ≡ pass ↔ IsClean db)
      × ((run shorten now db runs).anomaly ≡ none ↔ IsClean db)
unfolding run
run-IsClean shorten now db runs = (
  ↔_trans (pass_lem (issues_of shorten db)) (errors_IsClean shorten db),
  ↔_trans (quiet_lem (issues_of shorten db)) (errors_IsClean shorten db),
)
