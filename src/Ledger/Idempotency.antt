-- ===== src/Ledger/Idempotency.antt =====
-- services/ledger/src/idempotency/idempotency.service.ts: work that runs once for each key.
-- Hashes are parameters, already taken: `key_hash` is `sha256(idempotencyKey)`, `request_hash` is
-- `canonicalRequestHash(payload)`. What other sessions commit while this call waits is a function
-- on the tables, once before its transaction and once before its second look-up.
pub mod Once
pub mod Invariant
use aegis_shield_phase.Prelude.{
  ℕ, ◌+◌, ◌*◌, Bool, true, false, not, ◌&&◌, Option, none, some, List, [], ◌∷◌, ◌++◌, ◌==◌,
  if◌then◌else◌, find, is_some, update_where, Result, ok, err, ◌>>=◌,
}
use aegis_shield_phase.Ledger.Schema.{
  Ident, ConstraintTarget, customer_accounts_target, journal_entries_target, other_target, Failure,
  ledger_error, unique_violation, type_error, idempotency_conflict_error,
  idempotency_in_progress_error, IdempotencyScope, IdempotencyStatus, in_progress, completed,
  StoredResponse, IdempotencyRecord, Db, same_scope,
}

pub record IdempotentOutcome (T : Type 0) : Type 0 where
  pub result : T
  pub replayed : Bool

pub record ExecuteOptions (T : Type 0) : Type 0 where
  pub scope : IdempotencyScope
  pub key_hash : Ident
  pub request_hash : Ident
  pub run : Db → Result Failure (T × Db)
  pub encode : T → StoredResponse
  pub decode : StoredResponse → Result Failure T

-- The clock and the retention, and what the other sessions do meanwhile.
pub record ExecuteEnv : Type 0 where
  pub now : ℕ
  pub retention_hours : ℕ
  pub before_transaction : Db → Db
  pub before_replay : Db → Db

-- `uniqueViolationTarget`: `none` where the error is no P2002.
abbrev pub unique_violation_target : Failure → Option ConstraintTarget
unique_violation_target (unique_violation t) = some t
unique_violation_target _ = none

-- The target names neither `customer_accounts` nor `journal_entries`.
unfoldable pub is_idempotency_conflict : Failure → Bool
is_idempotency_conflict error = elim (unique_violation_target error) [
  | none ↦ false
  | some t ↦ elim t [
    | customer_accounts_target ↦ false
    | journal_entries_target ↦ false
    | other_target ↦ true
  ]
]

abbrev pub has_key : IdempotencyScope → Ident → IdempotencyRecord → Bool
has_key scope key_hash r = same_scope r.scope scope && r.key_hash == key_hash

abbrev pub is_completed : IdempotencyStatus → Bool
is_completed completed = true
is_completed in_progress = false

module _ {T : Type 0} (options : ExecuteOptions T) where
  -- The record of this scope and key.
  abbrev pub find_record : Db → Option IdempotencyRecord
  find_record db = find (has_key options.scope options.key_hash) db.idempotency_records

  -- The stored response of a settled record.
  abbrev pub stored_response : IdempotencyRecord → Option StoredResponse
  stored_response r = if is_completed r.status then r.response_body else none

  unfoldable pub replay_found :
      IdempotencyRecord → Bool → Result Failure (Option (IdempotentOutcome T))
  replay_found existing conflicted =
      if not (existing.request_hash == options.request_hash)
      then err idempotency_conflict_error
      else elim (stored_response existing) [
        | none ↦ if conflicted then err idempotency_in_progress_error else ok none
        | some body ↦ (do
          value ← options.decode body
          ok (some (record { result = value; replayed = true })))
      ]

  unfoldable pub replay_if_settled : Bool → Db → Result Failure (Option (IdempotentOutcome T))
  unfolding replay_found
  replay_if_settled conflicted db = elim (find_record db) [
    | none ↦ ok none
    | some existing ↦ replay_found existing conflicted
  ]

  abbrev pub reservation : ExecuteEnv → IdempotencyRecord
  reservation env = record {
    scope = options.scope;
    key_hash = options.key_hash;
    request_hash = options.request_hash;
    status = in_progress;
    response_body = none;
    expires_at = env.now + env.retention_hours * 3600000;
  }

  abbrev pub settle_record : T → IdempotencyRecord → IdempotencyRecord
  settle_record value r = record r {
    status = completed;
    response_body = some (options.encode value);
  }

  -- The transaction: the reservation, the work, the stored response.
  pub run_transaction : ExecuteEnv → Db → Result Failure (T × Db)
  run_transaction env db =
      if is_some (find_record db) then err (unique_violation other_target) else (do
        (value, tx) ←
            options.run
              (record db { idempotency_records = db.idempotency_records ++ reservation env ∷ [] })
        ok (
          value,
          record tx {
            idempotency_records =
                update_where (has_key options.scope options.key_hash) (settle_record value)
                  tx.idempotency_records;
          },
        ))

  -- The `catch`: a conflict replays what the other session has stored.
  pub after_conflict : Failure → Db → Result Failure (IdempotentOutcome T)
  unfolding is_idempotency_conflict replay_if_settled
  after_conflict error db = if not (is_idempotency_conflict error) then err error else (do
    replayed ← replay_if_settled true db
    elim replayed [ some outcome ↦ ok outcome | none ↦ err idempotency_in_progress_error ])

  -- A failed transaction is rolled back; the tables are then what the others have made of them.
  pub after_transaction :
      ExecuteEnv → Db → Result Failure (T × Db) → Result Failure (IdempotentOutcome T) × Db
  unfolding after_conflict
  after_transaction env db (ok (value, tx)) = (ok (record { result = value; replayed = false }), tx)
  after_transaction env db (err error) =
      (after_conflict error (env.before_replay db), env.before_replay db)

  unfoldable pub execute : ExecuteEnv → Db → Result Failure (IdempotentOutcome T) × Db
  unfolding replay_if_settled run_transaction after_transaction
  execute env db = elim (replay_if_settled false db) [
    | err error ↦ (err error, db)
    | ok settled ↦ elim settled [
      | some outcome ↦ (ok outcome, db)
      | none ↦
          after_transaction env (env.before_transaction db)
            (run_transaction env (env.before_transaction db))
    ]
  ]
