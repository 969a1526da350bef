-- ===== src/Ledger/TransferTests.antt =====
-- Runs of posting, transfers and channel operations on the small books, and the theorems there.
use aegis_shield_phase.Prelude.{◌≡◌, refl, some, [], ◌∷◌, arith, ok, err}
use aegis_shield_phase.Prelude.Int.{ℤ, pos, ◌+ℤ◌, ◌-ℤ◌, ◌≤ℤ◌}
use aegis_shield_phase.Ledger.Schema.{
  debit, credit, Db, JournalResult, insufficient_funds_error, customer_transfer, CustomerAccount,
}
use aegis_shield_phase.Ledger.Money.{
  parse_minor_units, serialize_minor_units, big_int, signed_balance_minor, apply_direction,
}
use aegis_shield_phase.Ledger.Journal.{
  normalise_postings, assert_balanced, deterministic_account_order, lock_accounts, run_journal,
  assert_postable_accounts, project_postings, assert_funds, posting_rows, update_projections,
}
use aegis_shield_phase.Ledger.Journal.Reconciled.{IsReconciled, run_journal-IsReconciled}
use aegis_shield_phase.Ledger.Post.{post, accepts_result}
use aegis_shield_phase.Ledger.Post.Laws.{post-IsReconciled, post_again}
use aegis_shield_phase.Ledger.Transfer.{TransferResult, transfer, resolve, balance}
use aegis_shield_phase.Ledger.Transfer.Laws.{MayTransfer, resolve_sound, transfer_admitted}
use aegis_shield_phase.Ledger.Books.{
  codes_250, alice, bob, float, customer, books, call, texts, command, request, actor, lines,
}

first_transfer :
    (transfer call texts command 1 books).1.ledger_accounts
    ≡ record alice {
      balance_projection =
          some (record { debit_total_minor = pos 250; credit_total_minor = pos 400; version = 2 });
    }
      ∷ record bob {
        balance_projection =
            some (record { debit_total_minor = pos 0; credit_total_minor = pos 250; version = 1 });
      }
      ∷ float
      ∷ []
unfolding transfer post run_journal lock_accounts assert_postable_accounts project_postings
    assert_funds posting_rows update_projections deterministic_account_order normalise_postings
    assert_balanced parse_minor_units serialize_minor_units signed_balance_minor apply_direction
    ◌+ℤ◌ ◌-ℤ◌
first_transfer = refl

-- A retry of the transfer finds 150 where 250 are needed, and is refused before the replay.
retry_refused :
    (transfer call texts command 1 (transfer call texts command 1 books).1).0
    ≡ err insufficient_funds_error
unfolding transfer post run_journal lock_accounts assert_postable_accounts project_postings
    assert_funds posting_rows update_projections deterministic_account_order normalise_postings
    assert_balanced parse_minor_units serialize_minor_units signed_balance_minor apply_direction
    ◌+ℤ◌ ◌-ℤ◌
retry_refused = refl

books-IsReconciled : IsReconciled books
unfolding signed_balance_minor ◌-ℤ◌ ◌+ℤ◌
books-IsReconciled = record {
  tallied = λ i a p found has. ground arith;
  balanced = refl;
  covered = λ i a p found has closed. ground arith;
}

abbrev receipt : JournalResult
receipt = record {
  id = 500;
  reference = 700;
  entry_type = customer_transfer;
  currency = 1;
  total_minor = codes_250;
  effective_at = 42;
  created_at = 42;
  postings =
      record {
        id = 600;
        ledger_account_id = 11;
        direction = debit;
        amount_minor = codes_250;
        sequence = 0;
      }
      ∷ record {
        id = 601;
        ledger_account_id = 12;
        direction = credit;
        amount_minor = codes_250;
        sequence = 1;
      }
      ∷ [];
}

abbrev after : Db
after = (post call request 1 actor books).1

posted : post call request 1 actor books ≡ (ok receipt, after)
unfolding transfer post run_journal lock_accounts assert_postable_accounts project_postings
    assert_funds posting_rows update_projections deterministic_account_order normalise_postings
    assert_balanced parse_minor_units serialize_minor_units signed_balance_minor apply_direction
    ◌+ℤ◌ ◌-ℤ◌
posted = refl

ran :
    run_journal call.post_env request 1 actor lines (pos 250) books
    ≡ (ok (receipt, record after { idempotency_records = [] }))
unfolding transfer post run_journal lock_accounts assert_postable_accounts project_postings
    assert_funds posting_rows update_projections deterministic_account_order normalise_postings
    assert_balanced parse_minor_units serialize_minor_units signed_balance_minor apply_direction
    ◌+ℤ◌ ◌-ℤ◌
ran = refl

run_journal-IsReconciled_example : IsReconciled (record after { idempotency_records = [] })
unfolding assert_balanced ◌+ℤ◌ apply_direction
run_journal-IsReconciled_example =
    run_journal-IsReconciled call.post_env request 1 actor lines (pos 250) books refl
      books-IsReconciled ran

post-IsReconciled_example : IsReconciled (post call request 1 actor books).1
post-IsReconciled_example =
    post-IsReconciled call request 1 actor books (λ d h. h) (λ d h. h) books-IsReconciled

post_again_example : post call request 2 actor after ≡ (ok receipt, after)
unfolding accepts_result
post_again_example =
    post_again call call.post_env call.execute_env request 1 2 actor actor books refl posted

resolve_sound_example : MayTransfer 71 1 82 1 books (customer 1 11) (customer 2 12)
unfolding resolve
resolve_sound_example = resolve_sound 71 1 82 1 books refl

abbrev transfer_receipt : TransferResult
transfer_receipt = record {
  journal_id = 500;
  sender_posting_id = 600;
  recipient_posting_id = 601;
  sender_account_id = 1;
  recipient_account_id = 2;
  sender_masked_reference = 91;
  recipient_masked_reference = 92;
  sender_balance_after = record { currency = 1; minor_units = b'1' ∷ b'5' ∷ b'0' ∷ [] };
  recipient_balance_after = record { currency = 1; minor_units = codes_250 };
  currency = 1;
  amount = record { currency = 1; minor_units = codes_250 };
  posted_at = 42;
}

transferred :
    transfer call texts command 1 books
    ≡ (ok transfer_receipt, (transfer call texts command 1 books).1)
unfolding transfer post run_journal lock_accounts assert_postable_accounts project_postings
    assert_funds posting_rows update_projections deterministic_account_order normalise_postings
    assert_balanced parse_minor_units serialize_minor_units signed_balance_minor apply_direction
    ◌+ℤ◌ ◌-ℤ◌
transferred = refl

transfer_admitted_example :
    (source recipient : CustomerAccount) × MayTransfer 71 1 82 1 books source recipient
    × (pos 1 ≤ℤ big_int codes_250)
    × ((b : ℤ) × (balance source books ≡ ok b) × (big_int codes_250 ≤ℤ b))
transfer_admitted_example = transfer_admitted call texts command 1 books transferred
