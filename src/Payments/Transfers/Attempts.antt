-- ===== src/Payments/Transfers/Attempts.antt =====
-- transfers.service.ts `recover`: the attempts of a transfer are bounded.
use aegis_shield_phase.Prelude.{
  ℕ, suc, length, Result, ok, err, ◌≡◌, refl, true, not, ◌||◌, List, [], ◌∷◌, arith, leb, ltb, ◌==◌,
  find, All, All-update_where, Result-cases, Option-cases, Bool-cases, inl, inr,
}
use aegis_shield_phase.Payments.Schema.{PaymentsFailure, Transfer, Db}
use aegis_shield_phase.Payments.Calls.{CallEnv, ledger_call_error, other_exception}
use aegis_shield_phase.Payments.Settlement.{completed_row, failed_row, settle}
use aegis_shield_phase.Payments.Transfers.{is_processing}
use aegis_shield_phase.Payments.Transfers.Recovery.{
  RecoveryConfig, selected, reviewed_row, retried_row, claim_row, claim_all, then_rest, settle_all,
  processed, recover,
}

-- A transfer in PROCESSING has been tried less often than it may be.
abbrev pub IsWithinAttempts : ℕ → Transfer → Type 0
IsWithinAttempts limit t = (not (is_processing t.status) || ltb t.attempt_count limit) ≡ true

claim_row-IsWithinAttempts :
    (cfg : RecoveryConfig) (env : CallEnv) (current : Transfer) (db : Db)
    → All (IsWithinAttempts cfg.max_processing_attempts) db.transfers
    → All (IsWithinAttempts cfg.max_processing_attempts) (claim_row cfg env current db).1.transfers
unfolding claim_row
claim_row-IsWithinAttempts cfg env current db h =
    elim (Bool-cases (leb cfg.max_processing_attempts (suc current.attempt_count))) [
      | inl last ↦ rw last (
          All-update_where _ _ (reviewed_row env (suc current.attempt_count)) db.transfers
            (λ t inside hit. refl) h)
      | inr more ↦ rw more (
          All-update_where _ _ (retried_row cfg env (suc current.attempt_count)) db.transfers
            (λ t inside hit. ground (arith, more)) h)
    ]

claim_all-IsWithinAttempts :
    (cfg : RecoveryConfig) (env : CallEnv) (ts : List Transfer) (db : Db)
    → All (IsWithinAttempts cfg.max_processing_attempts) db.transfers
    → All (IsWithinAttempts cfg.max_processing_attempts) (claim_all cfg env ts db).1.transfers
unfolding claim_all
claim_all-IsWithinAttempts cfg env [] db h = h
claim_all-IsWithinAttempts cfg env (t ∷ ts) db h =
    elim (Option-cases (find (λ (u : Transfer). u.id == t.id) db.transfers)) [
      | inl gone ↦ rw (gone, claim_all) h
      | inr (current, found) ↦
          rw (found, claim_all)
            (claim_all-IsWithinAttempts cfg env ts (claim_row cfg env current db).1
              (claim_row-IsWithinAttempts cfg env current db h))
    ]

settle-IsWithinAttempts :
    (limit : ℕ) (env : CallEnv) (row : Transfer) (db : Db)
    → All (IsWithinAttempts limit) db.transfers
    → All (IsWithinAttempts limit) (settle env row db).1.transfers
unfolding settle
settle-IsWithinAttempts limit env row db h = elim (Result-cases (env.ledger_transfer row)) [
  | inl (result, paid) ↦ elim (Bool-cases (env.update_fails row)) [
    | inl lost ↦ rw (paid, lost, settle) h
    | inr kept ↦
        rw (paid, kept, settle)
          (All-update_where _ _ (completed_row env result) db.transfers (λ t inside hit. refl) h)
  ]
  | inr (other_exception, failed) ↦ rw (failed, settle) h
  | inr (ledger_call_error status code, failed) ↦ elim (Bool-cases (ltb status 500)) [
    | inl refused ↦ elim (Bool-cases (env.update_fails row)) [
      | inl lost ↦ rw (failed, refused, lost, settle) h
      | inr kept ↦
          rw (failed, refused, kept, settle)
            (All-update_where _ _ (failed_row env code) db.transfers (λ t inside hit. refl) h)
    ]
    | inr down ↦ rw (failed, down, settle) h
  ]
]

then_rest-IsWithinAttempts :
    {A : Type 0} (limit : ℕ) (one : Result PaymentsFailure A × Db)
    (rest : Result PaymentsFailure (Unit {0}) × Db)
    → All (IsWithinAttempts limit) one.1.transfers
    → All (IsWithinAttempts limit) rest.1.transfers
    → All (IsWithinAttempts limit) (then_rest one rest).1.transfers
then_rest-IsWithinAttempts limit (ok a, db) rest h h' = h'
then_rest-IsWithinAttempts limit (err e, db) rest h h' = h

processed_tables : (n : ℕ) (x : Result PaymentsFailure (Unit {0}) × Db) → (processed n x).1 ≡ x.1
processed_tables n (ok _, db) = refl
processed_tables n (err e, db) = refl

settle_all-IsWithinAttempts :
    (limit : ℕ) (env : CallEnv) (rows : List Transfer) (db : Db)
    → All (IsWithinAttempts limit) db.transfers
    → All (IsWithinAttempts limit) (settle_all env rows db).1.transfers
unfolding settle_all
settle_all-IsWithinAttempts limit env [] db h = h
settle_all-IsWithinAttempts limit env (row ∷ rows) db h =
    then_rest-IsWithinAttempts limit (settle env row db) (settle_all env rows (settle env row db).1)
      (settle-IsWithinAttempts limit env row db h)
      (settle_all-IsWithinAttempts limit env rows (settle env row db).1
        (settle-IsWithinAttempts limit env row db h))

-- A recovery leaves every transfer in PROCESSING with fewer attempts than the configured number, if
-- it found them so: a transfer whose attempts are used up goes to review.
pub recover-IsWithinAttempts :
    (cfg : RecoveryConfig) (env : CallEnv) (db : Db)
    → All (IsWithinAttempts cfg.max_processing_attempts) db.transfers
    → All (IsWithinAttempts cfg.max_processing_attempts) (recover cfg env db).1.transfers
unfolding recover
recover-IsWithinAttempts cfg env db h =
    let claimed = claim_all cfg env (selected cfg env db) db in
    rw (processed_tables (length (selected cfg env db)) (settle_all env claimed.0 claimed.1)) (
      settle_all-IsWithinAttempts cfg.max_processing_attempts env claimed.0 claimed.1
        (claim_all-IsWithinAttempts cfg env (selected cfg env db) db h))
