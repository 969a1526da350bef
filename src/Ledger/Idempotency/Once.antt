-- ===== src/Ledger/Idempotency/Once.antt =====
-- idempotency.service.ts `execute`: replays, conflicts, races and failures.
use mathlib.Core.Path.{subst, subst₂}
use aegis_shield_phase.Prelude.{
  ◌≡◌, refl, sym, ◌∙◌, ap, ◌⊎◌, Bool, true, false, ◌&&◌, none, some, List, [], ◌∷◌, ◌++◌, inl, inr,
  arith, ◌==◌, Bool-cases, Option-cases, Result-cases, find, update_where, Result, ok, err,
  >>=-eq-ok, ==_refl,
}
use aegis_shield_phase.Ledger.Schema.{
  Failure, unique_violation, other_target, StoredResponse, IdempotencyRecord, IdempotencyScope,
  default_customer_account, journal_entry, Db, same_scope,
}
use aegis_shield_phase.Ledger.Idempotency.{
  ExecuteOptions, ExecuteEnv, IdempotentOutcome, execute, find_record, replay_found,
  replay_if_settled, run_transaction, after_conflict, after_transaction, has_key, stored_response,
  settle_record, reservation, is_idempotency_conflict,
}

find-update_appended :
    (p : IdempotencyRecord → Bool) (f : IdempotencyRecord → IdempotencyRecord)
    (rs : List IdempotencyRecord) (r : IdempotencyRecord)
    → find p rs ≡ none
    → p r ≡ true
    → p (f r) ≡ true
    → find p (update_where p f (rs ++ r ∷ [])) ≡ some (f r)
find-update_appended p f [] r n h k = rw (h, k)
find-update_appended p f (x ∷ rs) r n h k = elim (Bool-cases (p x)) [
  | inl e ↦ absurd (ground arith)
  | inr e ↦ rw (e, e) (find-update_appended p f rs r (rw e at n) h k)
]

same_scope_refl : (s : IdempotencyScope) → same_scope s s ≡ true
same_scope_refl default_customer_account = refl
same_scope_refl journal_entry = refl

records_of_ok :
    {T : Type 0} {v v' : T} {a b : Db}
    → ◌≡◌ {A = Result Failure (T × Db)} (ok (v, a)) (ok (v', b))
    → b.idempotency_records ≡ a.idempotency_records
records_of_ok h = cc

module _ {T : Type 0} (options : ExecuteOptions T) where
  -- What an accepted look-up has found.
  record Settled (db : Db) (value : T) : Type 0 where
    existing : IdempotencyRecord
    body : StoredResponse
    found : find_record options db ≡ some existing
    same_hash : (existing.request_hash == options.request_hash) ≡ true
    stored : stored_response options existing ≡ some body
    decoded : options.decode body ≡ ok value

  found-Settled :
      (c : Bool) (db : Db) (existing : IdempotencyRecord) {o : IdempotentOutcome T}
      → find_record options db ≡ some existing
      → replay_found options existing c ≡ ok (some o)
      → Settled db o.result
  unfolding replay_found
  found-Settled c db existing {o} found h =
      elim (Bool-cases (existing.request_hash == options.request_hash)) [
        | inr differ ↦ absurd (ground arith)
        | inl same ↦ elim (Option-cases (stored_response options existing)) [
          | inl open_record ↦ absurd (ground arith)
          | inr (body, stored) ↦
              let (value, decoded, h') =
                >>=-eq-ok (options.decode body) _ (rw (same, stored) at h) in
              record {
                existing = existing;
                body = body;
                found = found;
                same_hash = same;
                stored = stored;
                decoded = decoded ∙ ground arith;
              }
        ]
      ]

  Settled-of_replay :
      (c : Bool) (db : Db) {o : IdempotentOutcome T}
      → replay_if_settled options c db ≡ ok (some o)
      → Settled db o.result
  unfolding replay_if_settled
  Settled-of_replay c db {o} h = elim (Option-cases (find_record options db)) [
    | inl missing ↦ absurd (ground arith)
    | inr (existing, found) ↦ found-Settled c db existing found (rw (found, replay_if_settled) at h)
  ]

  replay_of_Settled :
      (c : Bool) (db : Db) {value : T}
      → Settled db value
      → replay_if_settled options c db ≡ ok (some (record { result = value; replayed = true }))
  unfolding replay_if_settled replay_found
  replay_of_Settled c db s =
      rw (s.found, replay_if_settled) (rw (s.same_hash, s.stored, s.decoded) refl)

  -- A settled look-up decides the call, and nothing is written.
  execute-replay_of_Settled :
      (env : ExecuteEnv) (db : Db) {value : T}
      → Settled db value
      → execute options env db ≡ (ok (record { result = value; replayed = true }), db)
  unfolding execute
  execute-replay_of_Settled env db s = rw (replay_of_Settled false db s, execute) refl

  own_key : (same_scope options.scope options.scope && options.key_hash == options.key_hash) ≡ true
  own_key = rw (same_scope_refl options.scope, ==_refl options.key_hash)

  -- The record that a committed transaction leaves.
  run_transaction-Settled :
      (env : ExecuteEnv) (db : Db) {value : T} {tx : Db}
      → ((before after : Db) (v : T)
          → options.run before ≡ ok (v, after)
          → after.idempotency_records ≡ before.idempotency_records)
      → options.decode (options.encode value) ≡ ok value
      → run_transaction options env db ≡ ok (value, tx)
      → Settled tx value
  unfolding run_transaction
  run_transaction-Settled env db {value} {tx} keeps reads h =
      elim (Option-cases (find_record options db)) [
        | inr (r, taken) ↦ absurd (ground arith)
        | inl free ↦
            let reserved : Db = record db {
              idempotency_records = db.idempotency_records ++ reservation options env ∷ [];
            } in
            let ((v, tx0), ran, h') =
              >>=-eq-ok (options.run reserved) _ (rw (free, run_transaction) at h) in
            let kept = keeps reserved tx0 v ran in
            let same : value ≡ v = ground arith in
            let after : tx.idempotency_records
                ≡ update_where (has_key options.scope options.key_hash) (settle_record options v)
                    reserved.idempotency_records =
              records_of_ok h'
              ∙ ap (update_where (has_key options.scope options.key_hash) (settle_record options v))
                  kept in
            record {
              existing = settle_record options v (reservation options env);
              body = options.encode v;
              found =
                  ap (find (has_key options.scope options.key_hash)) after
                  ∙ find-update_appended (has_key options.scope options.key_hash)
                      (settle_record options v) db.idempotency_records (reservation options env)
                      free own_key own_key;
              same_hash = ==_refl options.request_hash;
              stored = refl;
              decoded = rw same at reads ∙ ap ok (sym same);
            }
      ]

  after_race :
      (db : Db) {value : T}
      → Settled db value
      → ◌≡◌ {A = Result Failure (IdempotentOutcome T) × Db}
          (after_conflict options (unique_violation other_target) db, db)
          (ok (record { result = value; replayed = true }), db)
  unfolding after_conflict
  after_race db s = rw (replay_of_Settled true db s, after_conflict) refl

  result_along :
      {o o' : IdempotentOutcome T} {a b : Db}
      → ◌≡◌ {A = Result Failure (IdempotentOutcome T) × Db} (ok o', a) (ok o, b)
      → o'.result ≡ o.result
  result_along {o} {o'} h =
      let same : o' ≡ o = ground arith in ap (λ (x : IdempotentOutcome T). x.result) same

  Settled-along :
      {o o' : IdempotentOutcome T} {a b : Db}
      → ◌≡◌ {A = Result Failure (IdempotentOutcome T) × Db} (ok o', a) (ok o, b)
      → Settled a o'.result
      → Settled b o.result
  Settled-along {o} {o'} {a} {b} h s =
      let tables : a ≡ b = ground arith in subst₂ Settled tables (result_along h) s

  conflict-Settled :
      (e : Failure) (db : Db) {o : IdempotentOutcome T}
      → after_conflict options e db ≡ ok o
      → Settled db o.result
  unfolding after_conflict
  conflict-Settled e db {o} h = elim (Bool-cases (is_idempotency_conflict e)) [
    | inr other ↦ absurd (ground arith)
    | inl conflict ↦
        let (look, seen, h') = >>=-eq-ok (replay_if_settled options true db) _ (rw conflict at h) in
        elim (Option-cases look) [
          | inl nothing ↦ absurd (ground arith)
          | inr (o', found) ↦
              let same : o' ≡ o = ground arith in
              Settled-of_replay true db (seen ∙ ap ok (found ∙ ap some same))
        ]
  ]

  transaction-Settled :
      (env : ExecuteEnv) (db : Db) {o : IdempotentOutcome T} {db' : Db}
      → ((before after : Db) (v : T)
          → options.run before ≡ ok (v, after)
          → after.idempotency_records ≡ before.idempotency_records)
      → options.decode (options.encode o.result) ≡ ok o.result
      → after_transaction options env db (run_transaction options env db) ≡ (ok o, db')
      → Settled db' o.result
  unfolding after_transaction
  transaction-Settled env db {o} {db'} keeps reads h =
      elim (Result-cases (run_transaction options env db)) [
        | inl ((v, tx), ran) ↦
            let done = rw (ran, after_transaction) at h in
            Settled-along done (
              run_transaction-Settled env db keeps
                (subst (λ w. options.decode (options.encode w) ≡ ok w) (sym (result_along done))
                  reads)
                ran)
        | inr (e, failed) ↦
            let h' : (after_conflict options e (env.before_replay db), env.before_replay db)
                ≡ (ok o, db') =
              rw (failed, after_transaction) at h in
            subst (λ d. Settled d o.result)
              (ap (λ (x : Result Failure (IdempotentOutcome T) × Db). x.1) h')
              (conflict-Settled e (env.before_replay db)
                (ap (λ (x : Result Failure (IdempotentOutcome T) × Db). x.0) h'))
      ]

  execute-Settled :
      (env : ExecuteEnv) (db : Db) {o : IdempotentOutcome T} {db' : Db}
      → ((before after : Db) (v : T)
          → options.run before ≡ ok (v, after)
          → after.idempotency_records ≡ before.idempotency_records)
      → options.decode (options.encode o.result) ≡ ok o.result
      → execute options env db ≡ (ok o, db')
      → Settled db' o.result
  unfolding execute
  execute-Settled env db {o} {db'} keeps reads h =
      elim (Result-cases (replay_if_settled options false db)) [
        | inr (e, refused) ↦ absurd (ground arith)
        | inl (look, seen) ↦ elim (Option-cases look) [
          | inr (o', replayed) ↦
              let seen' = seen ∙ ap ok replayed in
              Settled-along (rw (seen', execute) at h) (Settled-of_replay false db seen')
          | inl fresh ↦
              let seen' = seen ∙ ap ok fresh in
              transaction-Settled env (env.before_transaction db) keeps reads
                (rw (seen', execute) at h)
        ]
      ]

  -- A call that throws writes nothing: the tables are as they were, or as the other sessions left
  -- them.
  pub execute_failed :
      (env : ExecuteEnv) (db : Db) {e : Failure} {db' : Db}
      → execute options env db ≡ (err e, db')
      → (db' ≡ db) ⊎ (db' ≡ env.before_replay (env.before_transaction db))
  unfolding execute after_transaction
  execute_failed env db {e} {db'} h = elim (Result-cases (replay_if_settled options false db)) [
    | inr (e', refused) ↦ inl (ground arith)
    | inl (look, seen) ↦ elim (Option-cases look) [
      | inr (o', replayed) ↦ absurd (ground arith)
      | inl fresh ↦ elim (Result-cases (run_transaction options env (env.before_transaction db))) [
        | inl (done, ran) ↦ absurd (ground arith)
        | inr (e', failed) ↦ inr (ground arith)
      ]
    ]
  ]

  -- A call that finds no record of its key, and then one that another session has settled with the
  -- same payload, returns what that session stored and writes nothing.
  pub execute_race :
      (env : ExecuteEnv) (db : Db) (r : IdempotencyRecord) (body : StoredResponse) {value : T}
      → find_record options db ≡ none
      → find_record options (env.before_transaction db) ≡ some r
      → env.before_replay (env.before_transaction db) ≡ env.before_transaction db
      → r.request_hash ≡ options.request_hash
      → stored_response options r ≡ some body
      → options.decode body ≡ ok value
      → execute options env db
        ≡ (ok (record { result = value; replayed = true }), env.before_transaction db)
  unfolding execute replay_if_settled run_transaction after_transaction
  execute_race env db r body free taken still hash stored decoded =
      let settled : Settled (env.before_transaction db) _ = record {
        existing = r;
        body = body;
        found = taken;
        same_hash = rw hash (==_refl options.request_hash);
        stored = stored;
        decoded = decoded;
      } in
      rw (free, execute)
        (rw (taken, run_transaction) (rw still (after_race (env.before_transaction db) settled)))

-- The same call with other work to do, had the key been fresh.
Settled-with_run :
    {T : Type 0} (options : ExecuteOptions T) (run' : Db → Result Failure (T × Db)) (db : Db)
    {value : T}
    → Settled options db value
    → Settled (record options { run = run' }) db value
Settled-with_run options run' db s = record {
  existing = s.existing;
  body = s.body;
  found = s.found;
  same_hash = s.same_hash;
  stored = s.stored;
  decoded = s.decoded;
}

-- A further call with the key and payload of one that succeeded returns its result as a replay and
-- writes nothing, if that result decodes to what was encoded.
pub execute_again_read :
    {T : Type 0} (options : ExecuteOptions T) (run' : Db → Result Failure (T × Db))
    (env env' : ExecuteEnv) (db : Db) {o : IdempotentOutcome T} {db' : Db}
    → ((before after : Db) (v : T)
        → options.run before ≡ ok (v, after)
        → after.idempotency_records ≡ before.idempotency_records)
    → options.decode (options.encode o.result) ≡ ok o.result
    → execute options env db ≡ (ok o, db')
    → execute (record options { run = run' }) env' db'
      ≡ (ok (record { result = o.result; replayed = true }), db')
execute_again_read options run' env env' db {o} {db'} keeps reads h =
    execute-replay_of_Settled (record options { run = run' }) env' db'
      (Settled-with_run options run' db' (execute-Settled options env db keeps reads h))

-- Once a call has succeeded, every further call with its key and payload returns the same result
-- as a replay and writes nothing, whatever its own work would have been: if the first call's work
-- leaves the idempotency records alone, and what it stores decodes to what was encoded.
pub execute_again :
    {T : Type 0} (options : ExecuteOptions T) (run' : Db → Result Failure (T × Db))
    (env env' : ExecuteEnv) (db : Db) {o : IdempotentOutcome T} {db' : Db}
    → ((before after : Db) (v : T)
        → options.run before ≡ ok (v, after)
        → after.idempotency_records ≡ before.idempotency_records)
    → ((v : T) → options.decode (options.encode v) ≡ ok v)
    → execute options env db ≡ (ok o, db')
    → execute (record options { run = run' }) env' db'
      ≡ (ok (record { result = o.result; replayed = true }), db')
execute_again options run' env env' db {o} {db'} keeps reads h =
    execute_again_read options run' env env' db keeps (reads o.result) h
