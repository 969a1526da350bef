-- ===== src/Ledger/Reconciliation.antt =====
-- services/ledger/src/reconciliation/reconciliation.service.ts: the checks of the books.
-- Each query is the list of its rows' identifiers, before its LIMIT.
pub mod Queries
pub mod Clean
pub mod Verdict
use aegis_shield_phase.Prelude.{
  ℕ, zero, suc, ◌+◌, Bool, true, false, not, ◌&&◌, ◌||◌, Option, none, some, List, [], ◌∷◌, ◌++◌,
  map, ltb, leb, ◌==◌, if◌then◌else◌, length, find, filter, any, take, min,
}
use aegis_shield_phase.Prelude.Int.{ℤ, pos, ◌-ℤ◌, leb_ℤ, ltb_ℤ, eqb_ℤ}
use aegis_shield_phase.Ledger.Schema.{
  Ident, debit, credit, LedgerAccountClass, liability, SystemAccountType, platform_settlement_asset,
  customer_funds_liability_control, agent_float, BalanceProjection, LedgerAccount, CustomerAccount,
  JournalEntry, JournalPosting, Db,
}
use aegis_shield_phase.Ledger.Journal.{account_by_id}
use aegis_shield_phase.Ledger.Journal.Effect.{posted_rows, total_rows}
use aegis_shield_phase.Ledger.Transactions.{entry_of}

pub data IssueCode : Type 0 where
  unbalanced_journal_issue posting_currency_mismatch non_positive_posting_amount : IssueCode
  balance_projection_drift missing_balance_projection : IssueCode
  customer_account_ledger_mismatch duplicate_default_account : IssueCode
  negative_customer_balance missing_system_account : IssueCode

pub data Severity : Type 0 where
  warning error : Severity

pub record ReconciliationIssue : Type 0 where
  pub code : IssueCode
  pub severity : Severity
  pub safe_identifier : Option Ident

pub data RunStatus : Type 0 where
  pass fail : RunStatus

pub record ReconciliationResult : Type 0 where
  pub status : RunStatus
  pub checked_journal_entries : ℕ
  pub checked_postings : ℕ
  pub checked_ledger_accounts : ℕ
  pub checked_customer_accounts : ℕ
  pub issue_count : ℕ
  pub issues : List ReconciliationIssue

abbrev pub max_reconciliation_issues : ℕ
max_reconciliation_issues = 50

abbrev pub postings_of : Db → JournalEntry → List JournalPosting
postings_of db e = filter (λ (p : JournalPosting). p.journal_entry_id == e.id) db.journal_postings

-- Fewer than two postings, or unequal sides.
abbrev pub is_unbalanced : Db → JournalEntry → Bool
is_unbalanced db e =
    ltb (length (postings_of db e)) 2
    || not (eqb_ℤ (total_rows debit (postings_of db e)) (total_rows credit (postings_of db e)))

abbrev pub mismatches_currency : Db → JournalPosting → Bool
mismatches_currency db p = elim (entry_of db p) [
  | none ↦ false
  | some e ↦ elim (account_by_id p.ledger_account_id db.ledger_accounts) [
    | none ↦ false
    | some a ↦ not (p.currency == e.currency) || not (p.currency == a.currency)
  ]
]

abbrev pub is_non_positive : Db → JournalPosting → Bool
is_non_positive db p = elim (entry_of db p) [ none ↦ false | some e ↦ leb_ℤ p.amount_minor (pos 0) ]

abbrev pub drifts : Db → LedgerAccount → Bool
drifts db a = elim a.balance_projection [
  | none ↦ false
  | some p ↦
      not (eqb_ℤ p.debit_total_minor (posted_rows debit a.id db.journal_postings))
      || not (eqb_ℤ p.credit_total_minor (posted_rows credit a.id db.journal_postings))
]

abbrev pub misses_projection : LedgerAccount → Bool
misses_projection a = elim a.balance_projection [ none ↦ true | some p ↦ false ]

abbrev pub is_liability : LedgerAccountClass → Bool
is_liability liability = true
is_liability _ = false

abbrev pub is_unbacked : Db → CustomerAccount → Bool
is_unbacked db c = elim (account_by_id c.ledger_account_id db.ledger_accounts) [
  | none ↦ true
  | some a ↦ not (is_liability a.account_class) || not (a.currency == c.currency)
]

-- The groups have one product type, and are reported by their smallest masked reference.
abbrev pub same_group : CustomerAccount → CustomerAccount → Bool
same_group c d = c.customer_id == d.customer_id && c.currency == d.currency

abbrev pub smallest_reference : Ident → List CustomerAccount → Ident
smallest_reference m [] = m
smallest_reference m (c ∷ cs) = smallest_reference (min m c.masked_reference) cs

-- One row for each group of more than one account: at its first account.
abbrev pub duplicate_groups : List CustomerAccount → List CustomerAccount → List Ident
duplicate_groups seen [] = []
duplicate_groups seen (c ∷ cs) =
    let rest = duplicate_groups (c ∷ seen) cs in
    if not (any (same_group c) seen) && any (same_group c) cs
    then smallest_reference c.masked_reference (filter (same_group c) cs) ∷ rest
    else rest

abbrev pub is_negative : Db → CustomerAccount → Bool
is_negative db c = elim (account_by_id c.ledger_account_id db.ledger_accounts) [
  | none ↦ false
  | some a ↦ elim a.balance_projection [
    | none ↦ false
    | some p ↦ ltb_ℤ (p.credit_total_minor -ℤ p.debit_total_minor) (pos 0)
  ]
]

abbrev pub same_type : SystemAccountType → SystemAccountType → Bool
same_type platform_settlement_asset platform_settlement_asset = true
same_type customer_funds_liability_control customer_funds_liability_control = true
same_type agent_float agent_float = true
same_type _ _ = false

abbrev pub has_type : SystemAccountType → LedgerAccount → Bool
has_type t a = elim a.system_account_type [ none ↦ false | some s ↦ same_type s t ]

abbrev pub count_type : SystemAccountType → Db → ℕ
count_type t db = if any (has_type t) db.ledger_accounts then 1 else 0

-- `COUNT(DISTINCT "system_account_type")`
abbrev pub system_account_types : Db → ℕ
system_account_types db =
    count_type platform_settlement_asset db
    + count_type customer_funds_liability_control db
    + count_type agent_float db

abbrev pub issue : IssueCode → Option Ident → ReconciliationIssue
issue code identifier = record { code = code; severity = error; safe_identifier = identifier }

-- `add`: rows are reported until there are as many issues as there may be.
unfoldable pub add_issues :
    IssueCode → List (Option Ident) → List ReconciliationIssue → List ReconciliationIssue
add_issues code [] issues = issues
add_issues code (row ∷ rows) issues =
    let more = add_issues code rows (issues ++ issue code row ∷ []) in
    if leb max_reconciliation_issues (length issues) then issues else more

-- The first rows of a query, with the part of the identifier that is reported.
abbrev pub rows_of : {A : Type 0} → (Ident → Ident) → (A → Ident) → List A → List (Option Ident)
rows_of shorten identify rows =
    take max_reconciliation_issues (map (λ row. some (shorten (identify row))) rows)

-- The reference of a posting's journal: its rows are joined to their journals.
abbrev pub reference_of : Db → JournalPosting → Ident
reference_of db p = elim (entry_of db p) [ none ↦ 0 | some e ↦ e.reference ]

unfoldable pub issues_of : (Ident → Ident) → Db → List ReconciliationIssue
unfolding add_issues
issues_of shorten db =
    let unbalanced =
      add_issues unbalanced_journal_issue
        (rows_of shorten (λ (e : JournalEntry). e.reference)
          (filter (is_unbalanced db) db.journal_entries))
        [] in
    let currencies =
      add_issues posting_currency_mismatch
        (rows_of shorten (reference_of db) (filter (mismatches_currency db) db.journal_postings))
        unbalanced in
    let amounts =
      add_issues non_positive_posting_amount
        (rows_of shorten (reference_of db) (filter (is_non_positive db) db.journal_postings))
        currencies in
    let drifted =
      add_issues balance_projection_drift
        (rows_of shorten (λ (a : LedgerAccount). a.code) (filter (drifts db) db.ledger_accounts))
        amounts in
    let missing =
      add_issues missing_balance_projection
        (rows_of shorten (λ (a : LedgerAccount). a.code)
          (filter misses_projection db.ledger_accounts))
        drifted in
    let unbacked =
      add_issues customer_account_ledger_mismatch
        (rows_of shorten (λ (c : CustomerAccount). c.masked_reference)
          (filter (is_unbacked db) db.customer_accounts))
        missing in
    let duplicates =
      add_issues duplicate_default_account
        (rows_of shorten (λ i. i) (duplicate_groups [] db.customer_accounts)) unbacked in
    let negatives =
      add_issues negative_customer_balance
        (rows_of shorten (λ (c : CustomerAccount). c.masked_reference)
          (filter (is_negative db) db.customer_accounts))
        duplicates in
    if ltb (system_account_types db) 2
    then add_issues missing_system_account (none ∷ []) negatives
    else negatives

abbrev pub is_error : ReconciliationIssue → Bool
is_error i = elim i.severity [ warning ↦ false | error ↦ true ]

abbrev pub status_of : List ReconciliationIssue → RunStatus
status_of issues = if any is_error issues then fail else pass

-- The stored run with its time of creation, the runs before it, and the anomaly that is reported.
pub record RunOutcome : Type 0 where
  pub result : ReconciliationResult
  pub runs : List (ReconciliationResult × ℕ)
  pub anomaly : Option IssueCode

abbrev pub first_code : List ReconciliationIssue → Option IssueCode
first_code [] = none
first_code (i ∷ is) = some i.code

abbrev pub anomaly_of : RunStatus → List ReconciliationIssue → Option IssueCode
anomaly_of pass issues = none
anomaly_of fail issues = first_code issues

abbrev pub result_of : List ReconciliationIssue → Db → ReconciliationResult
result_of issues db = record {
  status = status_of issues;
  checked_journal_entries = length db.journal_entries;
  checked_postings = length db.journal_postings;
  checked_ledger_accounts = length db.ledger_accounts;
  checked_customer_accounts = length db.customer_accounts;
  issue_count = length issues;
  issues = issues;
}

unfoldable pub run : (Ident → Ident) → ℕ → Db → List (ReconciliationResult × ℕ) → RunOutcome
unfolding issues_of
run shorten now db runs =
    let issues = issues_of shorten db in
    record {
      result = result_of issues db;
      runs = runs ++ (result_of issues db, now) ∷ [];
      anomaly = anomaly_of (status_of issues) issues;
    }

-- `latest`: the stored run of the greatest time of creation.
abbrev pub newer : ReconciliationResult × ℕ → ReconciliationResult × ℕ → ReconciliationResult × ℕ
newer a b = if leb b.1 a.1 then a else b

abbrev pub latest : List (ReconciliationResult × ℕ) → Option (ReconciliationResult × ℕ)
latest [] = none
latest (r ∷ rs) = elim (latest rs) [ none ↦ some r | some s ↦ some (newer s r) ]
