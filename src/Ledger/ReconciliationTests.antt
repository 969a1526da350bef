-- ===== src/Ledger/ReconciliationTests.antt =====
-- Reconciliations of books that are clean and of books that drift, and the theorem on them.
use aegis_shield_phase.Prelude.{◌≡◌, refl, some, none, [], ◌∷◌, true, ◌↔◌}
use aegis_shield_phase.Prelude.Int.{◌+ℤ◌, ◌-ℤ◌}
use aegis_shield_phase.Ledger.Schema.{asset, platform_settlement_asset, LedgerAccount, Db}
use aegis_shield_phase.Ledger.Reconciliation.{
  balance_projection_drift, pass, fail, add_issues, issues_of, run,
}
use aegis_shield_phase.Ledger.Reconciliation.Clean.{IsClean}
use aegis_shield_phase.Ledger.Reconciliation.Verdict.{run-IsClean}
use aegis_shield_phase.Ledger.Books.{alice, bob, float}
use aegis_shield_phase.Ledger.TransactionTests.{linked_books}

abbrev settlement : LedgerAccount
settlement = record bob {
  id = 14;
  code = 214;
  account_class = asset;
  allow_negative_balance = true;
  system_account_type = some platform_settlement_asset;
}

abbrev clean_books : Db
clean_books = record linked_books { ledger_accounts = alice ∷ bob ∷ float ∷ settlement ∷ [] }

-- The projection of one account has lost its credit.
abbrev drifted_books : Db
drifted_books = record clean_books {
  ledger_accounts =
      record alice { balance_projection = bob.balance_projection } ∷ bob ∷ float ∷ settlement ∷ [];
}

clean_passes : (run (λ i. i) 5 clean_books []).result.status ≡ pass
unfolding run issues_of add_issues ◌+ℤ◌ ◌-ℤ◌
clean_passes = refl

drift_fails :
    ((run (λ i. i) 5 drifted_books []).result.status ≡ fail)
    × ((run (λ i. i) 5 drifted_books []).anomaly ≡ some balance_projection_drift)
unfolding run issues_of add_issues ◌+ℤ◌ ◌-ℤ◌
drift_fails = (refl, refl)

run-IsClean_example :
    ((run (λ i. i) 5 clean_books []).result.status ≡ pass ↔ IsClean clean_books)
    × ((run (λ i. i) 5 clean_books []).anomaly ≡ none ↔ IsClean clean_books)
run-IsClean_example = run-IsClean (λ i. i) 5 clean_books []
