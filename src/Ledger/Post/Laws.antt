-- ===== src/Ledger/Post/Laws.antt =====
-- journal.service.ts `post`: the books after a call, and a retry.
use aegis_shield_phase.Prelude.{
  ◌≡◌, refl, ◌∙◌, true, ap, inl, inr, arith, Result-cases, List, Result, ok, err, >>=-eq-ok,
}
use aegis_shield_phase.Prelude.Int.{ℤ}
use aegis_shield_phase.Ledger.Schema.{
  Ident, Failure, IdempotencyRecord, JournalResult, Db, journal_response,
}
use aegis_shield_phase.Ledger.Requests.{InternalJournalRequest, JournalActor, Posting, PostEnv}
use aegis_shield_phase.Ledger.Journal.{normalise_postings, assert_balanced, run_journal}
use aegis_shield_phase.Ledger.Journal.Run.{run_journal-Ran}
use aegis_shield_phase.Ledger.Journal.Reconciled.{IsReconciled, run_journal-IsReconciled}
use aegis_shield_phase.Ledger.Idempotency.{ExecuteEnv, ExecuteOptions, IdempotentOutcome, execute}
use aegis_shield_phase.Ledger.Idempotency.Invariant.{execute_keeps}
use aegis_shield_phase.Ledger.Idempotency.Once.{execute_again_read}
use aegis_shield_phase.Ledger.Post.{
  PostCall, post, post_options, prepare_post, outcome_result, accepts_result, parse_result,
  decode_journal,
}

-- The books do not depend on the idempotency records.
with_records-IsReconciled :
    (db : Db) (rs : List IdempotencyRecord)
    → IsReconciled db
    → IsReconciled (record db { idempotency_records = rs })
with_records-IsReconciled db rs inv = record {
  tallied = inv.tallied;
  balanced = inv.balanced;
  covered = inv.covered;
}

outcome_tables :
    (x : Result Failure (IdempotentOutcome JournalResult) × Db) → (outcome_result x).1 ≡ x.1
outcome_tables (ok o, db) = refl
outcome_tables (err e, db) = refl

outcome_ok :
    (x : Result Failure (IdempotentOutcome JournalResult) × Db) {r : JournalResult} {db : Db}
    → outcome_result x ≡ (ok r, db)
    → (o : IdempotentOutcome JournalResult) × (x ≡ (ok o, db)) × (o.result ≡ r)
outcome_ok (ok o, d) h = (o, ground arith, ground arith)
outcome_ok (err e, d) h = absurd (ground arith)

run_journal_records :
    (env : PostEnv) (request : InternalJournalRequest) (correlation_id : Ident)
    (actor : JournalActor) (ps : List Posting) (t : ℤ) (tx : Db) {r : JournalResult} {tx' : Db}
    → run_journal env request correlation_id actor ps t tx ≡ ok (r, tx')
    → tx'.idempotency_records ≡ tx.idempotency_records
run_journal_records env request correlation_id actor ps t tx h =
    let ran = run_journal-Ran env request correlation_id actor ps t tx h in
    ap (λ (d : Db). d.idempotency_records) ran.after

module _ (call : PostCall) (request : InternalJournalRequest) (correlation_id : Ident)
    (actor : JournalActor) where
  abbrev options : List Posting → ℤ → ExecuteOptions JournalResult
  options = post_options call request correlation_id actor

  prepare_post_balanced :
      {ps : List Posting} {t : ℤ} → prepare_post request ≡ ok (ps, t) → assert_balanced ps ≡ ok t
  unfolding prepare_post
  prepare_post_balanced {ps} {t} h =
      let (ps', normal, h') = >>=-eq-ok (normalise_postings request.postings) _ h in
      let (t', sound, h'') = >>=-eq-ok (assert_balanced ps') _ h' in
      let e : ps' ≡ ps = ground arith in let e' : t' ≡ t = ground arith in rw (← e, ← e') sound

  -- Whatever a call to `post` returns, reconciled books stay reconciled, if the other sessions
  -- keep them so.
  pub post-IsReconciled :
      (db : Db)
      → ((d : Db) → IsReconciled d → IsReconciled (call.execute_env.before_transaction d))
      → ((d : Db) → IsReconciled d → IsReconciled (call.execute_env.before_replay d))
      → IsReconciled db
      → IsReconciled (post call request correlation_id actor db).1
  unfolding post post_options
  post-IsReconciled db before replay inv = elim (Result-cases (prepare_post request)) [
    | inr (e, refused) ↦ rw (refused, post) inv
    | inl ((ps, t), prepared) ↦
        let sound = prepare_post_balanced prepared in
        rw (prepared, post)
          (rw (outcome_tables (execute (options ps t) call.execute_env db)) (
            execute_keeps (options ps t) IsReconciled call.execute_env db with_records-IsReconciled
              (λ d d' r ran ok_before.
                run_journal-IsReconciled call.post_env request correlation_id actor ps t d sound
                  ok_before ran)
              before replay inv))
  ]

decode_accepted :
    (r : JournalResult) → accepts_result r ≡ true → decode_journal (journal_response r) ≡ ok r
unfolding decode_journal parse_result
decode_accepted r h = rw h refl

-- A retry of a request that was posted, by whatever session and at whatever time, returns the same
-- result and posts nothing, if `journalResultSchema` accepts that result.
pub post_again :
    (call : PostCall) (env' : PostEnv) (execute_env' : ExecuteEnv)
    (request : InternalJournalRequest) (correlation_id correlation_id' : Ident)
    (actor actor' : JournalActor) (db : Db) {r : JournalResult} {db' : Db}
    → accepts_result r ≡ true
    → post call request correlation_id actor db ≡ (ok r, db')
    → post
        (record call { post_env = env'; execute_env = execute_env' })
        request
        correlation_id'
        actor'
        db'
      ≡ (ok r, db')
unfolding post post_options
post_again call env' execute_env' request correlation_id correlation_id' actor actor' db {r} {db'}
      reads h =
    elim (Result-cases (prepare_post request)) [
      | inr (e, refused) ↦ absurd (ground arith)
      | inl ((ps, t), prepared) ↦
          let opts = options call request correlation_id actor ps t in
          let (o, done, result) =
            outcome_ok (execute opts call.execute_env db) (rw (prepared, post) at h) in
          let again =
            execute_again_read opts (run_journal env' request correlation_id' actor' ps t)
              call.execute_env execute_env' db
              (λ before after v ran.
                run_journal_records call.post_env request correlation_id actor ps t before ran)
              (decode_accepted o.result (ap accepts_result result ∙ reads)) done in
          rw (prepared, post) (rw again (rw result refl))
    ]
