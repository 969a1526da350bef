-- ===== src/Ledger/TransactionTests.antt =====
-- The history of an account with three transactions, and the theorems on it.
use aegis_shield_phase.Prelude.{suc, ◌≡◌, refl, Option, none, some, [], ◌∷◌, length, arith}
use aegis_shield_phase.Prelude.Int.{pos, ◌+ℤ◌, ◌-ℤ◌}
use aegis_shield_phase.Ledger.Schema.{
  debit, credit, Chars, customer_transfer, service, liability, JournalEntry, Db,
}
use aegis_shield_phase.Ledger.Money.{serialize_minor_units, signed_balance_minor}
use aegis_shield_phase.Ledger.Journal.Reconciled.{IsReconciled}
use aegis_shield_phase.Ledger.Transactions.{
  Cursor, HistoryTexts, History, TransactionHistoryQuery, history, account_rows, summaries,
  filtered,
}
use aegis_shield_phase.Ledger.Transactions.Balance.{final_balance, history-final_balance}
use aegis_shield_phase.Ledger.Transactions.Pages.{collect, collect_all}
use aegis_shield_phase.Ledger.Books.{alice, customer, books}

abbrev pub entry : JournalEntry
entry = record {
  id = 900;
  reference = 910;
  entry_type = customer_transfer;
  currency = 1;
  description = none;
  correlation_id = 1;
  effective_at = 20;
  created_at = 20;
  created_by_type = service;
  created_by_id = [];
  metadata = none;
}

-- The books with the entry of their opening postings.
abbrev pub linked_books : Db
linked_books = record books { journal_entries = entry ∷ [] }

-- A cursor's text: its three parts.
abbrev texts : HistoryTexts
texts = record {
  display_reference = λ id. id;
  fingerprint = λ d c from to. 7;
  encoded = λ c. (c.e, c.r ∷ c.f ∷ []);
  parse_cursor = parse;
}
  where
    parse : Chars → Option Cursor
    parse (e ∷ r ∷ f ∷ []) = some (record { e = e; r = r; f = f })
    parse _ = none

-- Three postings to one account.
abbrev busy_books : Db
busy_books = record linked_books {
  journal_postings =
      record {
        id = 30;
        journal_entry_id = 900;
        ledger_account_id = 11;
        direction = credit;
        amount_minor = pos 500;
        currency = 1;
        sequence = 0;
        created_at = 21;
      }
      ∷ record {
        id = 31;
        journal_entry_id = 900;
        ledger_account_id = 11;
        direction = debit;
        amount_minor = pos 100;
        currency = 1;
        sequence = 0;
        created_at = 22;
      }
      ∷ record {
        id = 32;
        journal_entry_id = 900;
        ledger_account_id = 11;
        direction = credit;
        amount_minor = pos 50;
        currency = 1;
        sequence = 0;
        created_at = 22;
      }
      ∷ [];
}

abbrev query : TransactionHistoryQuery
query = record {
  direction = none;
  category = none;
  date_from = none;
  date_to = none;
  cursor = none;
  page_size = 2;
}

abbrev history_of : Db → History
history_of db = record {
  account = customer 1 11;
  transactions = summaries texts (customer 1 11) (pos 0) (account_rows 11 db);
}

linked_books-IsReconciled : IsReconciled linked_books
unfolding signed_balance_minor ◌-ℤ◌ ◌+ℤ◌
linked_books-IsReconciled = record {
  tallied = λ i a p found has. ground arith;
  balanced = refl;
  covered = λ i a p found has closed. ground arith;
}

history-final_balance_example :
    final_balance (history_of linked_books).transactions
    ≡ serialize_minor_units (signed_balance_minor liability (pos 0) (pos 400))
unfolding history
history-final_balance_example =
    history-final_balance texts 71 1 linked_books alice
      (record { debit_total_minor = pos 0; credit_total_minor = pos 400; version = 1 })
      linked_books-IsReconciled (refl, (refl, tt)) refl refl refl refl

collect_all_example :
    collect texts 71 1 query busy_books
      (suc (length (filtered query (history_of busy_books).transactions)))
      none
    ≡ some (filtered query (history_of busy_books).transactions)
unfolding history filtered summaries account_rows
collect_all_example =
    collect_all texts 71 1 query busy_books (history_of busy_books) refl (omega arith) (λ c. refl)
      (refl, (refl, (refl, tt)))
