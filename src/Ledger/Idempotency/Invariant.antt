-- ===== src/Ledger/Idempotency/Invariant.antt =====
-- idempotency.service.ts `execute`: invariants of the tables.
use aegis_shield_phase.Prelude.{
  ◌≡◌, ◌∙◌, ap, false, inl, inr, arith, Option-cases, Result-cases, List, [], ◌∷◌, ◌++◌, ok,
  >>=-eq-ok,
}
use aegis_shield_phase.Ledger.Schema.{IdempotencyRecord, Db}
use aegis_shield_phase.Ledger.Idempotency.{
  ExecuteOptions, ExecuteEnv, execute, find_record, replay_if_settled, run_transaction,
  after_transaction, reservation,
}

module _ {T : Type 0} (options : ExecuteOptions T) (P : Db → Type 0) (env : ExecuteEnv) where
  transaction_keeps :
      (db : Db)
      → ((d : Db) (rs : List IdempotencyRecord) → P d → P (record d { idempotency_records = rs }))
      → ((d d' : Db) (v : T) → options.run d ≡ ok (v, d') → P d → P d')
      → {v : T} {tx : Db} → run_transaction options env db ≡ ok (v, tx)
      → P db
      → P tx
  unfolding run_transaction
  transaction_keeps db any_records work {v} {tx} h p =
      elim (Option-cases (find_record options db)) [
        | inr (r, taken) ↦ absurd (ground arith)
        | inl free ↦
            let reserved : Db = record db {
              idempotency_records = db.idempotency_records ++ reservation options env ∷ [];
            } in
            let ((v', tx0), ran, h') =
              >>=-eq-ok (options.run reserved) _ (rw (free, run_transaction) at h) in
            let kept =
              any_records tx0 tx.idempotency_records
                (work reserved tx0 v' ran (any_records db reserved.idempotency_records p)) in
            let same : record tx0 { idempotency_records = tx.idempotency_records } ≡ tx =
              ground arith in
            rw same at kept
      ]

  pub execute_keeps :
      (db : Db)
      → ((d : Db) (rs : List IdempotencyRecord) → P d → P (record d { idempotency_records = rs }))
      → ((d d' : Db) (v : T) → options.run d ≡ ok (v, d') → P d → P d')
      → ((d : Db) → P d → P (env.before_transaction d))
      → ((d : Db) → P d → P (env.before_replay d))
      → P db
      → P (execute options env db).1
  unfolding execute after_transaction
  execute_keeps db any_records work before replay p =
      elim (Result-cases (replay_if_settled options false db)) [
        | inr (e, refused) ↦ rw (refused, execute) p
        | inl (look, seen) ↦ elim (Option-cases look) [
          | inr (o, replayed) ↦ rw (seen ∙ ap ok replayed, execute) p
          | inl fresh ↦
              rw (seen ∙ ap ok fresh, execute)
                (elim (Result-cases (run_transaction options env (env.before_transaction db))) [
                  | inl ((v, tx), ran) ↦
                      rw (ran, after_transaction)
                        (transaction_keeps (env.before_transaction db) any_records work ran
                          (before db p))
                  | inr (e, failed) ↦
                      rw (failed, after_transaction)
                        (replay (env.before_transaction db) (before db p))
                ])
        ]
      ]
