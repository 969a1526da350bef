-- ===== src/Ledger/Journal/Run.antt =====
-- The transaction of a journal, taken apart: what a successful run has checked and written.
use aegis_shield_phase.Prelude.{
  ◌≡◌, sym, ◌∙◌, ap, List, [], ◌∷◌, ◌++◌, map, arith, Result, ok, >>=-eq-ok,
}
use aegis_shield_phase.Prelude.Int.{ℤ}
use aegis_shield_phase.Ledger.Schema.{Ident, Failure, JournalResult, Db}
use aegis_shield_phase.Ledger.Requests.{
  InternalJournalRequest, JournalActor, Posting, LockedAccount, PostEnv,
}
use aegis_shield_phase.Ledger.Journal.{
  select_rows, lock_accounts, deterministic_account_order, assert_postable_accounts,
  project_postings, assert_funds, posting_rows, update_projections, entry_row, create_entry,
  run_journal,
}

abbrev pub account_ids : List Posting → List Ident
account_ids = map (λ (p : Posting). p.ledger_account_id)

-- The locked rows are the joined rows of their identifiers, one for each.
lock_accounts_sound :
    (tx : Db) (is : List Ident) {rows : List LockedAccount}
    → lock_accounts tx is ≡ ok rows
    → rows ≡ select_rows tx.ledger_accounts (deterministic_account_order is)
unfolding lock_accounts
lock_accounts_sound tx is h = ground arith

create_entry_sound :
    (env : PostEnv) (request : InternalJournalRequest) (correlation_id : Ident)
    (actor : JournalActor) (tx : Db) {created : Db}
    → create_entry env (entry_row env request correlation_id actor) tx ≡ ok created
    → created ≡ record tx {
      journal_entries = tx.journal_entries ++ entry_row env request correlation_id actor ∷ [];
    }
unfolding create_entry
create_entry_sound env request correlation_id actor tx h = ground arith

-- What a run that succeeds has passed and written.
pub record Ran (env : PostEnv) (request : InternalJournalRequest) (correlation_id : Ident)
    (actor : JournalActor) (ps : List Posting) (tx tx' : Db) : Type 0 where
  pub rows : List LockedAccount
  pub projected : List LockedAccount
  pub locked : rows ≡ select_rows tx.ledger_accounts (deterministic_account_order (account_ids ps))
  pub projects : project_postings rows ps ≡ ok projected
  pub funded : assert_funds projected ≡ ok tt
  pub after : tx' ≡ record {
    ledger_accounts = update_projections projected tx.ledger_accounts;
    customer_accounts = tx.customer_accounts;
    journal_entries = tx.journal_entries ++ entry_row env request correlation_id actor ∷ [];
    journal_postings = tx.journal_postings ++ posting_rows env request.currency 0 ps;
    idempotency_records = tx.idempotency_records;
  }

tables_of_ok :
    {A : Type 0} {r r' : A} {tx tx' : Db}
    → ◌≡◌ {A = Result Failure (A × Db)} (ok (r, tx)) (ok (r', tx'))
    → tx ≡ tx'
tables_of_ok h = cc

pub run_journal-Ran :
    (env : PostEnv) (request : InternalJournalRequest) (correlation_id : Ident)
    (actor : JournalActor) (ps : List Posting) (t : ℤ) (tx : Db) {r : JournalResult} {tx' : Db}
    → run_journal env request correlation_id actor ps t tx ≡ ok (r, tx')
    → Ran env request correlation_id actor ps tx tx'
unfolding run_journal
run_journal-Ran env request correlation_id actor ps t tx {r} {tx'} h =
    let (rows, locked, h1) = >>=-eq-ok (lock_accounts tx (account_ids ps)) _ h in
    let (_, _, h2) = >>=-eq-ok (assert_postable_accounts rows request.currency) _ h1 in
    let (projected, projects, h3) = >>=-eq-ok (project_postings rows ps) _ h2 in
    let (_, funded, h4) = >>=-eq-ok (assert_funds projected) _ h3 in
    let (created, creates, h5) =
      >>=-eq-ok (create_entry env (entry_row env request correlation_id actor) tx) _ h4 in
    let same = create_entry_sound env request correlation_id actor tx creates in
    record {
      rows = rows;
      projected = projected;
      locked = lock_accounts_sound tx (account_ids ps) locked;
      projects = projects;
      funded = funded;
      after =
          sym (tables_of_ok h5)
          ∙ ap
              (λ (c : Db). record c {
                ledger_accounts = update_projections projected c.ledger_accounts;
                journal_postings = c.journal_postings ++ posting_rows env request.currency 0 ps;
              })
              same;
    }
