-- ===== src/Ledger/Transactions.antt =====
-- services/ledger/src/transactions/transaction.service.ts: the history of an account, and its pages.
-- A displayed reference and a cursor's text are functions of what they show; the cursor's text is
-- read back by a function that fails where JSON.parse or the check of the fields throws.
pub mod Balance
pub mod Pages
use aegis_shield_phase.Prelude.{
  ℕ, zero, suc, ◌+◌, Bool, true, false, not, ◌&&◌, ◌||◌, Option, none, some, List, [], ◌∷◌, map,
  ltb, leb, ◌==◌, if◌then◌else◌, length, find, filter, take, drop, is_some, Result, ok, err, ◌>>=◌,
  or_throw,
}
use aegis_shield_phase.Prelude.Int.{ℤ, pos, ◌+ℤ◌, ◌-ℤ◌}
use aegis_shield_phase.Ledger.Schema.{
  Ident, Chars, PostingDirection, debit, credit, JournalEntryType, account_adjustment,
  settlement_funding, customer_transfer, Failure, ledger_error, invalid_request,
  account_not_found_error, CustomerAccount, JournalEntry, JournalPosting, Db,
}
use aegis_shield_phase.Ledger.Money.{serialize_minor_units}
use aegis_shield_phase.Ledger.Transfer.{Money, owned_account, invalid_request_error}

pub data TransactionDirection : Type 0 where
  incoming outgoing : TransactionDirection

pub data TransactionCategory : Type 0 where
  funding adjustment transfer_category other : TransactionCategory

-- A posting joined with its entry.
pub record PostingRow : Type 0 where
  pub posting : JournalPosting
  pub entry : JournalEntry

pub record CustomerTransactionSummary : Type 0 where
  pub id : Ident
  pub display_reference : Ident
  pub account_id : Ident
  pub direction : TransactionDirection
  pub category : TransactionCategory
  pub amount : Money
  pub balance_after : Money
  pub effective_at : ℕ
  pub posted_at : ℕ

pub record Cursor : Type 0 where
  pub e : ℕ
  pub r : Ident
  pub f : Ident

pub record TransactionHistoryQuery : Type 0 where
  pub direction : Option TransactionDirection
  pub category : Option TransactionCategory
  pub date_from : Option ℕ
  pub date_to : Option ℕ
  pub cursor : Option Chars
  pub page_size : ℕ

pub record TransactionHistoryResponse : Type 0 where
  pub transactions : List CustomerTransactionSummary
  pub next_cursor : Option Chars

-- The texts: `displayReference`, `fingerprint`, `encodeCursor`, which is never empty (its first
-- character and the rest), and the parse of `decodeCursor`.
pub record HistoryTexts : Type 0 where
  pub display_reference : Ident → Ident
  pub fingerprint :
      Option TransactionDirection → Option TransactionCategory → Option ℕ → Option ℕ → Ident
  pub encoded : Cursor → ℕ × Chars
  pub parse_cursor : Chars → Option Cursor

abbrev pub category_of : JournalEntryType → TransactionCategory
category_of settlement_funding = funding
category_of account_adjustment = adjustment
category_of customer_transfer = transfer_category
category_of _ = other

abbrev pub direction_of : PostingDirection → TransactionDirection
direction_of credit = incoming
direction_of debit = outgoing

abbrev pub entry_of : Db → JournalPosting → Option JournalEntry
entry_of db p = find (λ (e : JournalEntry). e.id == p.journal_entry_id) db.journal_entries

-- The order `[{ createdAt: 'asc' }, { id: 'asc' }]`.
abbrev pub comes_before : JournalPosting → JournalPosting → Bool
comes_before p q = ltb p.created_at q.created_at || p.created_at == q.created_at && ltb p.id q.id

abbrev pub insert_posting : JournalPosting → List JournalPosting → List JournalPosting
insert_posting p [] = p ∷ []
insert_posting p (q ∷ qs) =
    let rest = insert_posting p qs in if comes_before q p then q ∷ rest else p ∷ q ∷ qs

abbrev pub sort_postings : List JournalPosting → List JournalPosting
sort_postings [] = []
sort_postings (p ∷ ps) = insert_posting p (sort_postings ps)

-- The postings of the account that have an entry, with the entry.
abbrev pub join_entries : Db → List JournalPosting → List PostingRow
join_entries db [] = []
join_entries db (p ∷ ps) =
    let rest = join_entries db ps in
    elim (entry_of db p) [ none ↦ rest | some e ↦ record { posting = p; entry = e } ∷ rest ]

unfoldable pub account_rows : Ident → Db → List PostingRow
account_rows ledger_account_id db = join_entries db (
    sort_postings (
      filter (λ (p : JournalPosting). p.ledger_account_id == ledger_account_id)
        db.journal_postings))

-- `balance += …`
abbrev pub add_directed : PostingDirection → ℤ → ℤ → ℤ
add_directed credit balance amount = balance +ℤ amount
add_directed debit balance amount = balance -ℤ amount

abbrev pub add_posting_to : ℤ → JournalPosting → ℤ
add_posting_to balance p = add_directed p.direction balance p.amount_minor

abbrev pub summary : HistoryTexts → CustomerAccount → PostingRow → ℤ → CustomerTransactionSummary
summary texts account row balance = record {
  id = row.posting.id;
  display_reference = texts.display_reference row.posting.id;
  account_id = account.id;
  direction = direction_of row.posting.direction;
  category = category_of row.entry.entry_type;
  amount = record {
    currency = account.currency;
    minor_units = serialize_minor_units row.posting.amount_minor;
  };
  balance_after = record {
    currency = account.currency;
    minor_units = serialize_minor_units balance;
  };
  effective_at = row.entry.effective_at;
  posted_at = row.posting.created_at;
}

-- The postings with the balance after each, from the balance before them.
unfoldable pub summaries :
    HistoryTexts → CustomerAccount → ℤ → List PostingRow → List CustomerTransactionSummary
summaries texts account balance [] = []
summaries texts account balance (row ∷ rows) =
    let after = add_posting_to balance row.posting in
    summary texts account row after ∷ summaries texts account after rows

pub record History : Type 0 where
  pub account : CustomerAccount
  pub transactions : List CustomerTransactionSummary

unfoldable pub history : HistoryTexts → Ident → Ident → Db → Result Failure History
unfolding account_rows summaries
history texts customer_id account_id db = do
  account ← or_throw (owned_account account_id customer_id db) account_not_found_error
  ok (record {
    account = account;
    transactions = summaries texts account (pos 0) (account_rows account.ledger_account_id db);
  })

abbrev pub same_direction_of : TransactionDirection → TransactionDirection → Bool
same_direction_of incoming incoming = true
same_direction_of outgoing outgoing = true
same_direction_of _ _ = false

abbrev pub same_category : TransactionCategory → TransactionCategory → Bool
same_category funding funding = true
same_category adjustment adjustment = true
same_category transfer_category transfer_category = true
same_category other other = true
same_category _ _ = false

-- A filter that the query does not name passes everything.
abbrev pub passes {ℓ} : {A : Type ℓ} → Option A → (A → Bool) → Bool
passes none test = true
passes (some a) test = test a

abbrev pub matches_query : TransactionHistoryQuery → CustomerTransactionSummary → Bool
matches_query query item =
    passes query.direction (λ d. same_direction_of item.direction d)
    && passes query.category (λ c. same_category item.category c)
    && passes query.date_from (λ from. leb from item.effective_at)
    && passes query.date_to (λ to. leb item.effective_at to)

-- The newest first, by `postedAt` and `id`.
abbrev pub insert_newest :
    CustomerTransactionSummary → List CustomerTransactionSummary → List CustomerTransactionSummary
insert_newest a [] = a ∷ []
insert_newest a (b ∷ bs) =
    let rest = insert_newest a bs in
    if ltb a.posted_at b.posted_at || a.posted_at == b.posted_at && ltb a.id b.id
    then b ∷ rest
    else a ∷ b ∷ bs

abbrev pub newest_first : List CustomerTransactionSummary → List CustomerTransactionSummary
newest_first [] = []
newest_first (a ∷ items) = insert_newest a (newest_first items)

unfoldable pub filtered :
    TransactionHistoryQuery → List CustomerTransactionSummary → List CustomerTransactionSummary
filtered query items = newest_first (filter (matches_query query) items)

-- `decodeCursor`: no cursor or an empty one, the cursor of this filter, or the error.
unfoldable pub decode_cursor : HistoryTexts → Option Chars → Ident → Result Failure (Option Cursor)
decode_cursor texts none expected = ok none
decode_cursor texts (some []) expected = ok none
decode_cursor texts (some (x ∷ value)) expected = elim (texts.parse_cursor (x ∷ value)) [
  | none ↦ err invalid_request_error
  | some c ↦ if c.f == expected then ok (some c) else err invalid_request_error
]

abbrev pub at_cursor : Cursor → CustomerTransactionSummary → Bool
at_cursor c item = item.display_reference == c.r && item.posted_at == c.e

-- `findIndex(...) + 1`, which is 0 where nothing is found.
abbrev pub index_after : Cursor → List CustomerTransactionSummary → ℕ
index_after c [] = 0
index_after c (item ∷ items) =
    let rest = index_after c items in
    if at_cursor c item then 1 else if rest == 0 then 0 else suc rest

unfoldable pub start_of : Option Cursor → List CustomerTransactionSummary → Result Failure ℕ
start_of none items = ok 0
start_of (some c) items =
    let start = index_after c items in if start == 0 then err invalid_request_error else ok start

abbrev pub encode_cursor : HistoryTexts → Cursor → Chars
encode_cursor texts c = (texts.encoded c).0 ∷ (texts.encoded c).1

-- `page.at(-1)`
abbrev pub last {ℓ} : {A : Type ℓ} → List A → Option A
last [] = none
last (a ∷ []) = some a
last (a ∷ b ∷ rest) = last (b ∷ rest)

abbrev pub cursor_of : Ident → CustomerTransactionSummary → Cursor
cursor_of expected tail = record { e = tail.posted_at; r = tail.display_reference; f = expected }

-- A cursor to the page's last item, where there are more.
abbrev pub next_from :
    HistoryTexts → Ident → Bool → Option CustomerTransactionSummary → Option Chars
next_from texts expected true (some tail) = some (encode_cursor texts (cursor_of expected tail))
next_from texts expected true none = none
next_from texts expected false tail = none

unfoldable pub page_from :
    HistoryTexts → Ident → ℕ → ℕ → List CustomerTransactionSummary → TransactionHistoryResponse
page_from texts expected page_size start items =
    let page = take page_size (drop start items) in
    record {
      transactions = page;
      next_cursor = next_from texts expected (ltb (start + length page) (length items)) (last page);
    }

abbrev pub filter_text : HistoryTexts → TransactionHistoryQuery → Ident
filter_text texts query =
    texts.fingerprint query.direction query.category query.date_from query.date_to

unfoldable pub list :
    HistoryTexts
    → Ident
    → Ident
    → TransactionHistoryQuery
    → Db
    → Result Failure TransactionHistoryResponse
unfolding history filtered decode_cursor start_of page_from
list texts customer_id account_id query db = do
  h ← history texts customer_id account_id db
  cursor ← decode_cursor texts query.cursor (filter_text texts query)
  start ← start_of cursor (filtered query h.transactions)
  ok (
      page_from texts (filter_text texts query) query.page_size start
        (filtered query h.transactions))

unfoldable pub detail :
    HistoryTexts
    → Ident
    → Ident
    → Ident
    → Db
    → Result Failure (CustomerTransactionSummary × CustomerAccount)
unfolding history
detail texts customer_id account_id transaction_id db = do
  h ← history texts customer_id account_id db
  item ←
      or_throw (find (λ (t : CustomerTransactionSummary). t.id == transaction_id) h.transactions)
        account_not_found_error
  ok (item, h.account)
