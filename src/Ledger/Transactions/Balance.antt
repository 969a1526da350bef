-- ===== src/Ledger/Transactions/Balance.antt =====
-- transaction.service.ts `history`: the running balance and the balance projection.
use aegis_shield_phase.Prelude.{
  ◌≡◌, refl, ◌∙◌, sym, ap, Bool, true, some, List, [], ◌∷◌, arith, inl, inr, ◌==◌, if◌then◌else◌,
  filter, All, All-filter, is_some, Bool-cases, Option-cases, ok, or_throw, >>=-eq-ok, ok_inj,
}
use aegis_shield_phase.Prelude.Int.{ℤ, pos, ◌+ℤ◌, ◌-ℤ◌, int_laws, eq_of_parts}
use aegis_shield_phase.Ledger.Schema.{
  Ident, Chars, PostingDirection, debit, credit, liability, JournalPosting, BalanceProjection,
  LedgerAccount, CustomerAccount, account_not_found_error, Db, same_direction,
}
use aegis_shield_phase.Ledger.Money.{serialize_minor_units, signed_balance_minor}
use aegis_shield_phase.Ledger.Journal.{account_by_id}
use aegis_shield_phase.Ledger.Journal.Effect.{posted_rows}
use aegis_shield_phase.Ledger.Journal.Reconciled.{IsReconciled}
use aegis_shield_phase.Ledger.Transfer.{owned_account}
use aegis_shield_phase.Ledger.Transactions.{
  PostingRow, CustomerTransactionSummary, HistoryTexts, History, entry_of, comes_before,
  insert_posting, sort_postings, join_entries, account_rows, add_posting_to, add_directed,
  summaries, history,
}

-- What a posting adds to the balance of a liability.
abbrev effect_of : PostingDirection → ℤ → ℤ
effect_of credit amount = amount
effect_of debit amount = pos 0 -ℤ amount

abbrev effect : JournalPosting → ℤ
effect p = effect_of p.direction p.amount_minor

net : List JournalPosting → ℤ
net [] = pos 0
net (p ∷ ps) = effect p +ℤ net ps

add_swap : (a b c : ℤ) → a +ℤ (b +ℤ c) ≡ b +ℤ (a +ℤ c)
add_swap a b c = eq_of_parts _ _ (omega int_laws)

net-insert_posting :
    (p : JournalPosting) (ps : List JournalPosting) → net (insert_posting p ps) ≡ effect p +ℤ net ps
unfolding net
net-insert_posting p [] = refl
net-insert_posting p (q ∷ qs) = elim (Bool-cases (comes_before q p)) [
  | inl after ↦ rw (after, net-insert_posting p qs) (add_swap (effect q) (effect p) (net qs))
  | inr here ↦ rw here refl
]

net-sort_postings : (ps : List JournalPosting) → net (sort_postings ps) ≡ net ps
unfolding net
net-sort_postings [] = refl
net-sort_postings (p ∷ ps) =
    net-insert_posting p (sort_postings ps) ∙ ap (λ z. effect p +ℤ z) (net-sort_postings ps)

net_step :
    (d : PostingDirection) (amount c b : ℤ)
    → effect_of d amount +ℤ (c -ℤ b)
      ≡ (if same_direction d credit then amount +ℤ c else c)
        -ℤ (if same_direction d debit then amount +ℤ b else b)
net_step credit amount c b = eq_of_parts _ _ (omega int_laws)
net_step debit amount c b = eq_of_parts _ _ (omega int_laws)

-- The net effect on an account is its credits less its debits.
net-filter :
    (i : Ident) (ps : List JournalPosting)
    → net (filter (λ (p : JournalPosting). p.ledger_account_id == i) ps)
      ≡ posted_rows credit i ps -ℤ posted_rows debit i ps
unfolding net
net-filter i [] = eq_of_parts _ _ (omega int_laws)
net-filter i (p ∷ ps) = elim (Bool-cases (p.ledger_account_id == i)) [
  | inl own ↦
      rw (own, net-filter i ps)
        (net_step p.direction p.amount_minor (posted_rows credit i ps) (posted_rows debit i ps))
  | inr foreign ↦ rw foreign (net-filter i ps)
]

-- The balance that the last transaction shows, or zero.
abbrev pub final_balance : List CustomerTransactionSummary → Chars
final_balance [] = serialize_minor_units (pos 0)
final_balance (t ∷ []) = t.balance_after.minor_units
final_balance (t ∷ u ∷ ts) = final_balance (u ∷ ts)

-- Every posting has its entry: the foreign key of `journal_entry_id`.
abbrev pub IsLinked : Db → Type 0
IsLinked db = All (λ (p : JournalPosting). is_some (entry_of db p) ≡ true) db.journal_postings

-- The balance after some postings, from the balance before them.
run_from : ℤ → List PostingRow → ℤ
run_from z [] = z
run_from z (row ∷ rows) = run_from (add_posting_to z row.posting) rows

final_balance-summaries :
    (texts : HistoryTexts) (account : CustomerAccount) (z : ℤ) (row : PostingRow)
    (rows : List PostingRow)
    → final_balance (summaries texts account z (row ∷ rows))
      ≡ serialize_minor_units (run_from z (row ∷ rows))
unfolding summaries run_from
final_balance-summaries texts account z row [] = refl
final_balance-summaries texts account z row (next ∷ rows) =
    final_balance-summaries texts account (add_posting_to z row.posting) next rows

add_directed-effect :
    (d : PostingDirection) (z amount n : ℤ)
    → add_directed d z amount +ℤ n ≡ z +ℤ (effect_of d amount +ℤ n)
add_directed-effect credit z amount n = eq_of_parts _ _ (omega int_laws)
add_directed-effect debit z amount n = eq_of_parts _ _ (omega int_laws)

run_from-net :
    (db : Db) (z : ℤ) (ps : List JournalPosting)
    → All (λ (p : JournalPosting). is_some (entry_of db p) ≡ true) ps
    → run_from z (join_entries db ps) ≡ z +ℤ net ps
unfolding run_from net
run_from-net db z [] h = eq_of_parts _ _ (omega int_laws)
run_from-net db z (p ∷ ps) (h, hs) = elim (Option-cases (entry_of db p)) [
  | inl gone ↦ absurd (ground (arith, gone))
  | inr (e, found) ↦
      rw (found, join_entries)
        (run_from-net db (add_posting_to z p) ps hs
          ∙ add_directed-effect p.direction z p.amount_minor (net ps))
]

All-insert_posting :
    (P : JournalPosting → Type 0) (p : JournalPosting) (ps : List JournalPosting)
    → P p
    → All P ps
    → All P (insert_posting p ps)
All-insert_posting P p [] h hs = (h, tt)
All-insert_posting P p (q ∷ qs) h hs = ground (arith, All-insert_posting P p qs h hs.1)

All-sort_postings :
    (P : JournalPosting → Type 0) (ps : List JournalPosting) → All P ps → All P (sort_postings ps)
All-sort_postings P [] h = tt
All-sort_postings P (p ∷ ps) h =
    All-insert_posting P p (sort_postings ps) h.0 (All-sort_postings P ps h.1)

-- The rows that `account_rows` takes have their entries.
linked_filter :
    (db : Db) (q : JournalPosting → Bool) (ps : List JournalPosting)
    → All (λ (p : JournalPosting). is_some (entry_of db p) ≡ true) ps
    → All (λ (p : JournalPosting). is_some (entry_of db p) ≡ true) (sort_postings (filter q ps))
linked_filter db q ps h =
    All-sort_postings _ _
      (All-filter (λ (p : JournalPosting). is_some (entry_of db p) ≡ true) q ps h)

zero_add : (z : ℤ) → pos 0 +ℤ z ≡ z
zero_add z = eq_of_parts _ _ (omega int_laws)

run_from-account_rows :
    (i : Ident) (db : Db)
    → IsLinked db
    → run_from (pos 0) (account_rows i db)
      ≡ posted_rows credit i db.journal_postings -ℤ posted_rows debit i db.journal_postings
unfolding account_rows
run_from-account_rows i db h =
    let own = λ (p : JournalPosting). p.ledger_account_id == i in
    let sum =
      run_from-net db (pos 0) (sort_postings (filter own db.journal_postings))
        (linked_filter db own db.journal_postings h) in
    sum
    ∙ zero_add (net (sort_postings (filter own db.journal_postings)))
    ∙ net-sort_postings (filter own db.journal_postings)
    ∙ net-filter i db.journal_postings

shown :
    (texts : HistoryTexts) (account : CustomerAccount) (rows : List PostingRow)
    → final_balance (summaries texts account (pos 0) rows)
      ≡ serialize_minor_units (run_from (pos 0) rows)
unfolding summaries run_from
shown texts account [] = refl
shown texts account (row ∷ rows) = final_balance-summaries texts account (pos 0) row rows

-- The balance after the newest transaction of a history, or zero where there is none, is the one
-- that the account's projection stands for: if the books are reconciled, every posting has its
-- entry, and the account's ledger account is a liability with a projection.
pub history-final_balance :
    (texts : HistoryTexts) (customer_id account_id : Ident) (db : Db) (a : LedgerAccount)
    (p : BalanceProjection) {h : History}
    → IsReconciled db
    → IsLinked db
    → history texts customer_id account_id db ≡ ok h
    → account_by_id h.account.ledger_account_id db.ledger_accounts ≡ some a
    → a.account_class ≡ liability
    → a.balance_projection ≡ some p
    → final_balance h.transactions
      ≡ serialize_minor_units
          (signed_balance_minor a.account_class p.debit_total_minor p.credit_total_minor)
unfolding history signed_balance_minor
history-final_balance texts customer_id account_id db a p {h} books linked read found class has =
    let (account, owned, made) =
      >>=-eq-ok (or_throw (owned_account account_id customer_id db) account_not_found_error) _
        read in
    let same = ok_inj made in
    let (debits, credits) = books.tallied h.account.ledger_account_id a p found has in
    ap (λ (g : History). final_balance g.transactions) (sym same)
    ∙ shown texts account (account_rows account.ledger_account_id db)
    ∙ ap serialize_minor_units (
        run_from-account_rows account.ledger_account_id db linked
        ∙ rw (class, debits, credits, ← (ap (λ (g : History). g.account) same)) refl)
