-- ===== src/Ledger/Journal/Reconciled.antt =====
-- journal.service.ts: the invariant of the books, and what a journal does to it.
use mathlib.Core.Path.{ap₂}
use aegis_shield_phase.Prelude.{
  ◌≡◌, refl, sym, ◌∙◌, ap, ◌⊎◌, false, Option, none, some, List, inl, inr, arith, ◌==◌, find-All,
  Option-cases, ok,
}
use aegis_shield_phase.Prelude.Int.{ℤ, pos, ◌+ℤ◌, ◌≤ℤ◌, int_laws}
use aegis_shield_phase.Ledger.Schema.{
  Ident, debit, credit, PostingDirection, BalanceProjection, LedgerAccount, JournalResult, Db,
}
use aegis_shield_phase.Ledger.Money.{signed_balance_minor}
use aegis_shield_phase.Ledger.Requests.{
  InternalJournalRequest, JournalActor, Posting, LockedAccount, PostEnv,
}
use aegis_shield_phase.Ledger.Journal.{
  account_by_id, locked_row, locked_of, select_rows, deterministic_account_order, assert_balanced,
  posting_rows, write_projection, run_journal,
}
use aegis_shield_phase.Ledger.Journal.Order.{order-IsAscending}
use aegis_shield_phase.Ledger.Journal.Effect.{
  posted, total, posted_rows, total_rows, posted_rows-append, total_rows-append,
  posted-posting_rows, total-posting_rows, locate, ids, Advances, Advanced,
  Advances-project_postings,
}
use aegis_shield_phase.Ledger.Journal.Tables.{
  locate-select_rows, select_rows-IsAscending, written, account_by_id-update_projections,
}
use aegis_shield_phase.Ledger.Journal.Checks.{IsFunded, assert_funds-All, assert_balanced_sound}
use aegis_shield_phase.Ledger.Journal.Run.{Ran, run_journal-Ran, account_ids}

-- Each projection is the sum of its account's postings, both sides of the books are equal, and no
-- account that may not go negative has a negative balance.
pub record IsReconciled (db : Db) : Type 0 where
  pub tallied :
      (i : Ident) (a : LedgerAccount) (p : BalanceProjection)
      → account_by_id i db.ledger_accounts ≡ some a
      → a.balance_projection ≡ some p
      → (p.debit_total_minor ≡ posted_rows debit i db.journal_postings)
        × (p.credit_total_minor ≡ posted_rows credit i db.journal_postings)
  pub balanced : total_rows debit db.journal_postings ≡ total_rows credit db.journal_postings
  pub covered :
      (i : Ident) (a : LedgerAccount) (p : BalanceProjection)
      → account_by_id i db.ledger_accounts ≡ some a
      → a.balance_projection ≡ some p
      → a.allow_negative_balance ≡ false
      → pos 0 ≤ℤ signed_balance_minor a.account_class p.debit_total_minor p.credit_total_minor

-- The account `i` before the postings, given what it is after them.
record Moved (tx : Db) (ps : List Posting) (i : Ident) (a' : LedgerAccount) (p' : BalanceProjection)
    : Type 0 where
  a : LedgerAccount
  p : BalanceProjection
  found : account_by_id i tx.ledger_accounts ≡ some a
  has : a.balance_projection ≡ some p
  debits : p'.debit_total_minor ≡ p.debit_total_minor +ℤ posted debit i ps
  credits : p'.credit_total_minor ≡ p.credit_total_minor +ℤ posted credit i ps
  class : a'.account_class ≡ a.account_class
  allow : a'.allow_negative_balance ≡ a.allow_negative_balance
  funds :
      ((p'.debit_total_minor ≡ p.debit_total_minor)
        × (p'.credit_total_minor ≡ p.credit_total_minor))
      ⊎ (a'.allow_negative_balance ≡ false
          → pos 0
            ≤ℤ signed_balance_minor a'.account_class p'.debit_total_minor p'.credit_total_minor)

Advances-none :
    (ps : List Posting) (i : Ident) (o : Option LockedAccount)
    → Advances ps i o none
    → (posted debit i ps ≡ pos 0) × (posted credit i ps ≡ pos 0)
Advances-none ps i none h = h
Advances-none ps i (some a) h = absurd h

Advances-some :
    (ps : List Posting) (i : Ident) (o : Option LockedAccount) (b : LockedAccount)
    → Advances ps i o (some b)
    → (a : LockedAccount) × (o ≡ some a) × Advanced ps i a b
Advances-some ps i none b h = absurd h
Advances-some ps i (some a) b h = (a, refl, h)

row_parts :
    (i : Ident) (accounts : List LedgerAccount) {r : LockedAccount}
    → locked_row i accounts ≡ some r
    → (a : LedgerAccount) × (p : BalanceProjection) × (account_by_id i accounts ≡ some a)
      × (a.balance_projection ≡ some p)
      × (r ≡ locked_of a p)
row_parts i accounts {r} h = elim (Option-cases (account_by_id i accounts)) [
  | inl missing ↦ absurd (ground arith)
  | inr (a, found) ↦ elim (Option-cases a.balance_projection) [
    | inl bare ↦ absurd (ground arith)
    | inr (p, has) ↦ (a, p, found, has, ground arith)
  ]
]

written_parts :
    (a a' : LedgerAccount) (q : LockedAccount) (p p' : BalanceProjection)
    → some a' ≡ written (some q) (some a)
    → a.balance_projection ≡ some p
    → a'.balance_projection ≡ some p'
    → (a'.account_class ≡ a.account_class)
      × (a'.allow_negative_balance ≡ a.allow_negative_balance)
      × (p' ≡ write_projection q p)
written_parts a a' q p p' h bare has = ground arith

funded_after :
    (a a' : LedgerAccount) (p p' : BalanceProjection) (q r : LockedAccount)
    → r ≡ locked_of a p
    → (q.account_class ≡ r.account_class) × (q.allow_negative_balance ≡ r.allow_negative_balance)
    → (a'.account_class ≡ a.account_class)
      × (a'.allow_negative_balance ≡ a.allow_negative_balance)
      × (p' ≡ write_projection q p)
    → IsFunded q
    → a'.allow_negative_balance ≡ false
    → pos 0 ≤ℤ signed_balance_minor a'.account_class p'.debit_total_minor p'.credit_total_minor
funded_after a a' p p' q r joined moves kept fund closed =
    let allowed : q.allow_negative_balance ≡ false = ground arith in
    let class : a'.account_class ≡ q.account_class = ground arith in
    rw (class, kept.2) (fund allowed)

module _ (env : PostEnv) (request : InternalJournalRequest) (correlation_id : Ident)
    (actor : JournalActor) (ps : List Posting) (tx tx' : Db)
    (ran : Ran env request correlation_id actor ps tx tx') where
  ran_accounts :
      (i : Ident)
      → account_by_id i tx'.ledger_accounts
        ≡ written (locate i ran.projected) (account_by_id i tx.ledger_accounts)
  ran_accounts i =
      let order = order-IsAscending (account_ids ps) in
      let keys : ids ran.projected
          ≡ ids (select_rows tx.ledger_accounts (deterministic_account_order (account_ids ps))) =
        (Advances-project_postings i ran.rows ps ran.projects).1 ∙ ap ids ran.locked in
      ap (λ (d : Db). account_by_id i d.ledger_accounts) ran.after
      ∙ account_by_id-update_projections ran.projected i tx.ledger_accounts (
          rw keys (
            select_rows-IsAscending tx.ledger_accounts
              (deterministic_account_order (account_ids ps)) order))

  advanced : (i : Ident) → Advances ps i (locate i ran.rows) (locate i ran.projected)
  advanced i = (Advances-project_postings i ran.rows ps ran.projects).0

  untouched :
      (i : Ident) (a' : LedgerAccount) (p' : BalanceProjection)
      → locate i ran.projected ≡ none
      → account_by_id i tx'.ledger_accounts ≡ some a'
      → a'.balance_projection ≡ some p'
      → Moved tx ps i a' p'
  untouched i a' p' absent found has =
      let same : account_by_id i tx'.ledger_accounts ≡ account_by_id i tx.ledger_accounts =
        ran_accounts i ∙ ap (λ o. written o (account_by_id i tx.ledger_accounts)) absent in
      let (d, c) = Advances-none ps i (locate i ran.rows) (rw absent at (advanced i)) in
      record {
        a = a';
        p = p';
        found = sym same ∙ found;
        has = has;
        debits = rw d (omega int_laws);
        credits = rw c (omega int_laws);
        class = refl;
        allow = refl;
        funds = inl (refl, refl);
      }

  touched :
      (i : Ident) (a' : LedgerAccount) (p' : BalanceProjection) (q : LockedAccount)
      → locate i ran.projected ≡ some q
      → account_by_id i tx'.ledger_accounts ≡ some a'
      → a'.balance_projection ≡ some p'
      → Moved tx ps i a' p'
  touched i a' p' q present found has =
      let (r, at, moves) = Advances-some ps i (locate i ran.rows) q (rw present at (advanced i)) in
      let (a, p, row, bare, joined) = row_parts i tx.ledger_accounts (
        locate-select_rows tx.ledger_accounts (deterministic_account_order (account_ids ps)) i
          (ap (locate i) (sym ran.locked) ∙ at)) in
      let same : some a' ≡ written (some q) (some a) =
        sym found ∙ ran_accounts i ∙ (rw (present, row) refl) in
      let kept : (a'.account_class ≡ a.account_class)
          × (a'.allow_negative_balance ≡ a.allow_negative_balance)
          × (p' ≡ write_projection q p) =
        written_parts a a' q p p' same bare has in
      let fund : IsFunded q =
        find-All IsFunded (λ (b : LockedAccount). b.id == i) ran.projected
          (assert_funds-All ran.projected ran.funded) present in
      record {
        a = a;
        p = p;
        found = row;
        has = bare;
        debits =
            ap (λ (b : BalanceProjection). b.debit_total_minor) kept.2 ∙ moves.0 ∙ (rw joined refl);
        credits =
            ap (λ (b : BalanceProjection). b.credit_total_minor) kept.2
            ∙ moves.1
            ∙ (rw joined refl);
        class = kept.0;
        allow = kept.1;
        funds = inr (funded_after a a' p p' q r joined (moves.2, moves.3) kept fund);
      }

  moved :
      (i : Ident) (a' : LedgerAccount) (p' : BalanceProjection)
      → account_by_id i tx'.ledger_accounts ≡ some a'
      → a'.balance_projection ≡ some p'
      → Moved tx ps i a' p'
  moved i a' p' found has = elim (Option-cases (locate i ran.projected)) [
    | inl absent ↦ untouched i a' p' absent found has
    | inr (q, present) ↦ touched i a' p' q present found has
  ]

  ran_posted :
      (d : PostingDirection) (i : Ident)
      → posted_rows d i tx'.journal_postings ≡ posted_rows d i tx.journal_postings +ℤ posted d i ps
  ran_posted d i =
      ap (λ (b : Db). posted_rows d i b.journal_postings) ran.after
      ∙ posted_rows-append d i tx.journal_postings (posting_rows env request.currency 0 ps)
      ∙ ap (λ z. posted_rows d i tx.journal_postings +ℤ z)
          (posted-posting_rows env request.currency 0 d i ps)

  ran_total :
      (d : PostingDirection)
      → total_rows d tx'.journal_postings ≡ total_rows d tx.journal_postings +ℤ total d ps
  ran_total d =
      ap (λ (b : Db). total_rows d b.journal_postings) ran.after
      ∙ total_rows-append d tx.journal_postings (posting_rows env request.currency 0 ps)
      ∙ ap (λ z. total_rows d tx.journal_postings +ℤ z)
          (total-posting_rows env request.currency 0 d ps)

  ran-tallied :
      IsReconciled tx
      → (i : Ident) (a' : LedgerAccount) (p' : BalanceProjection)
      → account_by_id i tx'.ledger_accounts ≡ some a'
      → a'.balance_projection ≡ some p'
      → (p'.debit_total_minor ≡ posted_rows debit i tx'.journal_postings)
        × (p'.credit_total_minor ≡ posted_rows credit i tx'.journal_postings)
  ran-tallied inv i a' p' found has =
      let m = moved i a' p' found has in
      let (d, c) = inv.tallied i m.a m.p m.found m.has in
      (
        m.debits ∙ ap (λ z. z +ℤ posted debit i ps) d ∙ sym (ran_posted debit i),
        m.credits ∙ ap (λ z. z +ℤ posted credit i ps) c ∙ sym (ran_posted credit i),
      )

  ran-covered :
      IsReconciled tx
      → (i : Ident) (a' : LedgerAccount) (p' : BalanceProjection)
      → account_by_id i tx'.ledger_accounts ≡ some a'
      → a'.balance_projection ≡ some p'
      → a'.allow_negative_balance ≡ false
      → pos 0 ≤ℤ signed_balance_minor a'.account_class p'.debit_total_minor p'.credit_total_minor
  ran-covered inv i a' p' found has closed =
      let m = moved i a' p' found has in
      elim m.funds [
        | inl (d, c) ↦
            rw (m.class, d, c) (inv.covered i m.a m.p m.found m.has (sym m.allow ∙ closed))
        | inr after ↦ after closed
      ]

  ran-IsReconciled : total debit ps ≡ total credit ps → IsReconciled tx → IsReconciled tx'
  ran-IsReconciled equal inv = record {
    tallied = ran-tallied inv;
    balanced = ran_total debit ∙ ap₂ (λ y z. y +ℤ z) inv.balanced equal ∙ sym (ran_total credit);
    covered = ran-covered inv;
  }

-- A journal whose lines are balanced leaves reconciled books reconciled when its run succeeds.
pub run_journal-IsReconciled :
    (env : PostEnv) (request : InternalJournalRequest) (correlation_id : Ident)
    (actor : JournalActor) (ps : List Posting) (t : ℤ) (tx : Db) {r : JournalResult} {tx' : Db}
    → assert_balanced ps ≡ ok t
    → IsReconciled tx
    → run_journal env request correlation_id actor ps t tx ≡ ok (r, tx')
    → IsReconciled tx'
run_journal-IsReconciled env request correlation_id actor ps t tx {r} {tx'} sound inv h =
    let (_, _, _, d, c) = assert_balanced_sound ps sound in
    ran-IsReconciled env request correlation_id actor ps tx tx'
      (run_journal-Ran env request correlation_id actor ps t tx h) (d ∙ sym c) inv
