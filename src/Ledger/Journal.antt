-- ===== src/Ledger/Journal.antt =====
-- services/ledger/src/ledger/journal.service.ts: validating and posting a journal.
-- A database transaction is a function on the tables: what it returns with an error is dropped.
-- A query by a unique key is a search in the table; `FOR UPDATE` and the wait for a row lock show
-- only in the order in which the transactions run.
pub mod Order
pub mod Effect
pub mod Tables
pub mod Checks
pub mod Run
pub mod Reconciled
use aegis_shield_phase.Prelude.{
  ℕ, zero, suc, ◌+◌, Bool, true, false, not, ◌&&◌, ◌||◌, Option, none, some, List, [], ◌∷◌, ◌++◌,
  map, ltb, ◌==◌, if◌then◌else◌, length, find, filter, any, take, update_where, get_or, is_some,
  Result, ok, err, ◌>>=◌, ◌>>◌, throw_if, or_throw,
}
use aegis_shield_phase.Prelude.Int.{ℤ, pos, ◌+ℤ◌, ltb_ℤ, leb_ℤ, eqb_ℤ}
use aegis_shield_phase.Ledger.Schema.{
  Ident, Chars, LedgerAccountClass, PostingDirection, debit, credit, JournalEntryType, ActorType,
  ConstraintTarget, Failure, unique_violation, account_not_found_error, insufficient_funds_error,
  unbalanced_journal_error, currency_mismatch_error, BalanceProjection, LedgerAccount, JournalEntry,
  JournalPosting, PostingResult, JournalResult, Db, same_direction,
}
use aegis_shield_phase.Ledger.Money.{
  parse_minor_units, serialize_minor_units, signed_balance_minor, apply_direction,
}
use aegis_shield_phase.Ledger.Requests.{
  InternalJournalRequest, JournalActor, LockedAccount, PostEnv, Posting, PostingRequest,
}

-- The map's key, `${ledgerAccountId}:${direction}`.
abbrev pub same_key : Posting → Posting → Bool
same_key q p = q.ledger_account_id == p.ledger_account_id && same_direction q.direction p.direction

-- One round of the loop: the amount joins the entry of its key, or a new entry is added.
pub add_posting : List Posting → Posting → List Posting
add_posting [] p = p ∷ []
add_posting (q ∷ qs) p =
    if same_key q p
    then record q { amount_minor = q.amount_minor +ℤ p.amount_minor } ∷ qs
    else q ∷ add_posting qs p

pub normalise_from : List Posting → List PostingRequest → Result Failure (List Posting)
unfolding add_posting
normalise_from combined [] = ok combined
normalise_from combined (r ∷ rs) = do
  amount ← parse_minor_units r.amount_minor
  normalise_from
      (add_posting combined (record {
        ledger_account_id = r.ledger_account_id;
        direction = r.direction;
        amount_minor = amount;
      }))
      rs

unfoldable pub normalise_postings : List PostingRequest → Result Failure (List Posting)
unfolding normalise_from
normalise_postings postings = normalise_from [] postings

-- The loop of `assertBalanced` over (debit total, credit total).
pub sum_directions : ℤ × ℤ → List Posting → Result Failure (ℤ × ℤ)
sum_directions totals [] = ok totals
sum_directions totals (p ∷ ps) =
    let rest = sum_directions (apply_direction p.direction p.amount_minor totals) ps in
    if leb_ℤ p.amount_minor (pos 0) then err unbalanced_journal_error else rest

unfoldable pub assert_balanced : List Posting → Result Failure ℤ
unfolding sum_directions
assert_balanced postings = do
  throw_if (ltb (length postings) 2) unbalanced_journal_error
  (debit_total, credit_total) ← sum_directions (pos 0, pos 0) postings
  throw_if (not (eqb_ℤ debit_total credit_total) || eqb_ℤ debit_total (pos 0))
      unbalanced_journal_error
  ok debit_total

-- `[...new Set(ids)]`
pub unique_ids : List Ident → List Ident
unique_ids [] = []
unique_ids (x ∷ xs) = x ∷ filter (λ y. not (y == x)) (unique_ids xs)

pub insert_sorted : Ident → List Ident → List Ident
insert_sorted x [] = x ∷ []
insert_sorted x (y ∷ ys) = if ltb x y then x ∷ y ∷ ys else y ∷ insert_sorted x ys

-- `.sort()`
pub sort_ids : List Ident → List Ident
unfolding insert_sorted
sort_ids [] = []
sort_ids (x ∷ xs) = insert_sorted x (sort_ids xs)

unfoldable pub deterministic_account_order : List Ident → List Ident
unfolding unique_ids sort_ids
deterministic_account_order ids = sort_ids (unique_ids ids)

abbrev pub account_by_id : Ident → List LedgerAccount → Option LedgerAccount
account_by_id i = find (λ (a : LedgerAccount). a.id == i)

abbrev pub locked_of : LedgerAccount → BalanceProjection → LockedAccount
locked_of a p = record {
  id = a.id;
  currency = a.currency;
  account_class = a.account_class;
  allow_negative_balance = a.allow_negative_balance;
  debit_total_minor = p.debit_total_minor;
  credit_total_minor = p.credit_total_minor;
  version = p.version;
}

-- The row that the query joins for one identifier.
abbrev pub locked_row : Ident → List LedgerAccount → Option LockedAccount
locked_row i accounts = elim (account_by_id i accounts) [
  | none ↦ none
  | some a ↦ elim a.balance_projection [ none ↦ none | some p ↦ some (locked_of a p) ]
]

-- The query's rows, in the order of the identifiers.
pub select_rows : List LedgerAccount → List Ident → List LockedAccount
select_rows accounts [] = []
select_rows accounts (i ∷ is) =
    let rest = select_rows accounts is in
    elim (locked_row i accounts) [ none ↦ rest | some row ↦ row ∷ rest ]

unfoldable pub lock_accounts : Db → List Ident → Result Failure (List LockedAccount)
unfolding select_rows
lock_accounts tx ids =
    let unique = deterministic_account_order ids in
    let rows = select_rows tx.ledger_accounts unique in
    if length rows == length unique then ok rows else err account_not_found_error

unfoldable pub assert_postable_accounts : List LockedAccount → Ident → Result Failure (Unit {0})
assert_postable_accounts [] currency = ok tt
assert_postable_accounts (a ∷ accounts) currency =
    let rest = assert_postable_accounts accounts currency in
    if a.currency == currency then rest else err currency_mismatch_error

-- The account of a posting with the posting applied.
abbrev pub post_to : Posting → LockedAccount → LockedAccount
post_to p a =
    let totals =
      apply_direction p.direction p.amount_minor (a.debit_total_minor, a.credit_total_minor) in
    record a { debit_total_minor = totals.0; credit_total_minor = totals.1 }

-- `projected.get(id)`, and the entry with the posting applied.
pub project_one : Posting → List LockedAccount → Option (List LockedAccount)
project_one p [] = none
project_one p (a ∷ others) =
    let rest = project_one p others in
    if a.id == p.ledger_account_id
    then some (post_to p a ∷ others)
    else elim rest [ none ↦ none | some bs ↦ some (a ∷ bs) ]

unfoldable pub project_postings :
    List LockedAccount → List Posting → Result Failure (List LockedAccount)
unfolding project_one
project_postings projected [] = ok projected
project_postings projected (p ∷ ps) = do
  next ← or_throw (project_one p projected) account_not_found_error
  project_postings next ps

unfoldable pub assert_funds : List LockedAccount → Result Failure (Unit {0})
assert_funds [] = ok tt
assert_funds (a ∷ others) =
    let rest = assert_funds others in
    let balance = signed_balance_minor a.account_class a.debit_total_minor a.credit_total_minor in
    if ltb_ℤ balance (pos 0) && not a.allow_negative_balance
    then err insufficient_funds_error
    else rest

-- The rows of `tx.journalPosting.create`, numbered from `sequence`.
unfoldable pub posting_rows : PostEnv → Ident → ℕ → List Posting → List JournalPosting
posting_rows env currency sequence [] = []
posting_rows env currency sequence (p ∷ ps) =
    record {
      id = env.posting_id sequence;
      journal_entry_id = env.entry_id;
      ledger_account_id = p.ledger_account_id;
      direction = p.direction;
      amount_minor = p.amount_minor;
      currency = currency;
      sequence = sequence;
      created_at = env.now;
    }
    ∷ posting_rows env currency (suc sequence) ps

abbrev pub posting_result : JournalPosting → PostingResult
posting_result r = record {
  id = r.id;
  ledger_account_id = r.ledger_account_id;
  direction = r.direction;
  amount_minor = serialize_minor_units r.amount_minor;
  sequence = r.sequence;
}

-- `tx.balanceProjection.update` of one account: the new totals, and one version more.
abbrev pub write_projection : LockedAccount → BalanceProjection → BalanceProjection
write_projection a old = record {
  debit_total_minor = a.debit_total_minor;
  credit_total_minor = a.credit_total_minor;
  version = old.version + 1;
}

pub update_projection : LockedAccount → List LedgerAccount → List LedgerAccount
update_projection a =
    update_where (λ (row : LedgerAccount). row.id == a.id)
      (λ row. record row {
        balance_projection = elim row.balance_projection [
          | none ↦ none
          | some p ↦ some (write_projection a p)
        ];
      })

unfoldable pub update_projections : List LockedAccount → List LedgerAccount → List LedgerAccount
unfolding update_projection
update_projections [] accounts = accounts
update_projections (a ∷ others) accounts = update_projections others (update_projection a accounts)

abbrev pub entry_row : PostEnv → InternalJournalRequest → Ident → JournalActor → JournalEntry
entry_row env request correlation_id actor = record {
  id = env.entry_id;
  reference = get_or request.reference env.generated_reference;
  entry_type = request.entry_type;
  currency = request.currency;
  description = request.description;
  correlation_id = correlation_id;
  effective_at = get_or request.effective_at env.now;
  created_at = env.now;
  created_by_type = actor.actor_type;
  created_by_id = take 64 actor.id;
  metadata = request.metadata;
}

-- `tx.journalEntry.create`: the reference is unique.
unfoldable pub create_entry : PostEnv → JournalEntry → Db → Result Failure Db
create_entry env entry tx =
    if any (λ (e : JournalEntry). e.reference == entry.reference) tx.journal_entries
    then err (unique_violation env.reference_target)
    else ok (record tx { journal_entries = tx.journal_entries ++ entry ∷ [] })

abbrev pub journal_result : JournalEntry → ℤ → List JournalPosting → JournalResult
journal_result entry total rows = record {
  id = entry.id;
  reference = entry.reference;
  entry_type = entry.entry_type;
  currency = entry.currency;
  total_minor = serialize_minor_units total;
  effective_at = entry.effective_at;
  created_at = entry.created_at;
  postings = map posting_result rows;
}

-- The `run` of `post`, inside the transaction.
unfoldable pub run_journal :
    PostEnv
    → InternalJournalRequest
    → Ident
    → JournalActor
    → List Posting
    → ℤ
    → Db
    → Result Failure (JournalResult × Db)
unfolding create_entry
run_journal env request correlation_id actor postings total tx = do
  accounts ← lock_accounts tx (map (λ (p : Posting). p.ledger_account_id) postings)
  assert_postable_accounts accounts request.currency
  projected ← project_postings accounts postings
  assert_funds projected
  let entry = entry_row env request correlation_id actor
  created ← create_entry env entry tx
  let rows = posting_rows env request.currency 0 postings
  ok (
    journal_result entry total rows,
    record created {
      journal_postings = created.journal_postings ++ rows;
      ledger_accounts = update_projections projected created.ledger_accounts;
    },
  )
