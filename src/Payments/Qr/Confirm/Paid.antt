-- ===== src/Payments/Qr/Confirm/Paid.antt =====
-- qr.service.ts `confirm`: what a confirmation that comes back completed has checked and done.
use aegis_shield_phase.Prelude.{
  ◌<◌, ◌≡◌, ◌⊎◌, refl, sym, ◌∙◌, ap, Bool, true, false, ◌||◌, none, some, List, [], ◌∷◌, arith,
  ◌==◌, leb, ltb, find, find_updated, update_where, Result-cases, ==→≡, ok_inj, Bool-cases,
  Option-cases, inl, inr, ok,
}
use aegis_shield_phase.Payments.Calls.{LedgerTransferResult, ledger_call_error, other_exception}
use aegis_shield_phase.Payments.Qr.Schema.{
  completed, redeemed, QrPaymentRequest, QrRedemption, QrDb,
}
use aegis_shield_phase.Payments.Qr.Env.{QrEnv}
use aegis_shield_phase.Payments.Qr.Confirm.{
  ConfirmInput, Accepted, find_key, find_token, is_processing, is_expired, request_hash_of, keyed,
  write_key, accept_fresh, accept, settle_accepted, confirm,
}
use aegis_shield_phase.Payments.Qr.Confirm.Settle.{
  request_of, failed_row, recipient_reference, stored_row, complete, fail_payment, settle,
}
use aegis_shield_phase.Payments.Qr.Confirm.Reads.{RedemptionView, format_redemption}
use aegis_shield_phase.Payments.Qr.Steps.{accept_fresh-IsAccepted}

-- The view is the one of a redemption that already had the key, for the same request.
pub record IsReplay (env : QrEnv) (input : ConfirmInput) (db : QrDb) (v : RedemptionView)
    : Type 0 where
  pub existing : QrRedemption
  pub taken :
      find_key input.sender_customer_id (env.sha256 input.idempotency_key) db ≡ some existing
  pub same : existing.request_hash ≡ request_hash_of env input
  pub shown : format_redemption existing ≡ v

-- The token's redemption was waiting, its code live and the key unused; the Ledger has moved the
-- money to the code's recipient, and the code is redeemed.
pub record IsPaid (env : QrEnv) (input : ConfirmInput) (db after : QrDb) : Type 0 where
  pub row : QrRedemption
  pub qr : QrPaymentRequest
  pub result : LedgerTransferResult
  pub found : find_token (env.sha256 input.intent_token) db ≡ some row
  pub waiting : is_processing row.status ≡ true
  pub code : request_of row db ≡ some qr
  pub in_time : env.now < qr.expires_at
  pub not_expired : is_expired qr.status ≡ false
  pub unused : find_key input.sender_customer_id (env.sha256 input.idempotency_key) db ≡ none
  pub paid : env.ledger_transfer (keyed env input row) qr.recipient_public_reference ≡ ok result
  pub closed :
      request_of row after ≡ some (record qr { status = redeemed; redeemed_at = some env.now })

stored_failed :
    (env : QrEnv) (row : QrRedemption) (rows : List QrRedemption)
    → is_processing row.status ≡ true
    → ¬ (
        (stored_row row
          (update_where (λ (r : QrRedemption). r.id == row.id) (failed_row env) rows)).status
        ≡ completed)
stored_failed env row [] waiting h = ground (arith, waiting, h)
stored_failed env row (r ∷ rows) waiting h = elim (Bool-cases (r.id == row.id)) [
  | inl e ↦ ground (arith, rw (e, e) at h)
  | inr e ↦ stored_failed env row rows waiting (rw (e, e) at h)
]

-- A waiting redemption that settlement completes was paid by the Ledger.
settle-complete :
    (env : QrEnv) (row : QrRedemption) (db : QrDb)
    → is_processing row.status ≡ true
    → (settle env row db).0.status ≡ completed
    → (result : LedgerTransferResult) × (env.ledger_transfer row (recipient_reference row db)
        ≡ ok result)
      × (settle env row db ≡ complete env row result db)
unfolding settle fail_payment
settle-complete env row db waiting h =
    elim (Result-cases (env.ledger_transfer row (recipient_reference row db))) [
      | inl (result, paid) ↦ (result, paid, rw (paid, settle) refl)
      | inr (other_exception, failed) ↦ absurd (ground (arith, waiting, rw (failed, settle) at h))
      | inr (ledger_call_error status code, failed) ↦ elim (Bool-cases (ltb status 500)) [
        | inl refused ↦
            absurd
              (stored_failed env row db.redemptions waiting (rw (failed, refused, settle) at h))
        | inr down ↦ absurd (ground (arith, waiting, rw (failed, down, settle) at h))
      ]
    ]

complete-closed :
    (env : QrEnv) (row : QrRedemption) (result : LedgerTransferResult) (db : QrDb)
    (qr : QrPaymentRequest)
    → request_of row db ≡ some qr
    → request_of row (complete env row result db).1
      ≡ some (record qr { status = redeemed; redeemed_at = some env.now })
unfolding complete
complete-closed env row result db qr code =
    let hit = λ (q : QrPaymentRequest). q.id == row.qr_payment_request_id in
    find_updated hit hit (λ q. record q { status = redeemed; redeemed_at = some env.now })
      db.requests qr (λ q. refl) (find_hit hit db.requests qr code) code
  where
    find_hit :
        (p : QrPaymentRequest → Bool) (rows : List QrPaymentRequest) (q : QrPaymentRequest)
        → find p rows ≡ some q
        → p q ≡ true
    find_hit p [] q h = absurd (ground (arith, h))
    find_hit p (r ∷ rows) q h = elim (Bool-cases (p r)) [
      | inl e ↦ ground (arith, e, rw e at h)
      | inr e ↦ find_hit p rows q (rw e at h)
    ]

module _ (env : QrEnv) (input : ConfirmInput) (db : QrDb)
    (quiet : (d : QrDb) → env.meanwhile d ≡ d) where
  keyed-IsPaid :
      (row : QrRedemption) (qr : QrPaymentRequest) {v : RedemptionView} {after : QrDb}
      → find_key input.sender_customer_id (env.sha256 input.idempotency_key) db ≡ none
      → find_token (env.sha256 input.intent_token) db ≡ some row
      → is_processing row.status ≡ true
      → request_of row db ≡ some qr
      → (leb qr.expires_at env.now || is_expired qr.status) ≡ false
      → settle_accepted env db (
          ok (
            record { redemption = keyed env input row; replayed = false },
            write_key env input row db,
          ))
        ≡ (ok v, after)
      → v.status ≡ completed
      → IsPaid env input db after
  unfolding settle_accepted
  keyed-IsPaid row qr {v} {after} free found waiting code live h done =
      let tx = env.meanwhile (write_key env input row db) in
      let shown = ok_inj (ap (λ p. p.0) h) in
      let code' : request_of (keyed env input row) tx ≡ some qr =
        rw (quiet (write_key env input row db)) code in
      let (result, paid, settled) =
        settle-complete env (keyed env input row) tx waiting
          (ap (λ (w : RedemptionView). w.status) shown ∙ done) in
      record {
        row = row;
        qr = qr;
        result = result;
        found = found;
        waiting = waiting;
        code = code;
        in_time = ground (arith, live);
        not_expired = ground (arith, live);
        unused = free;
        paid = rw (recipient_reference, code') at paid;
        closed =
            ap (request_of row) (sym (ap (λ p. p.1) h) ∙ ap (λ p. p.1) settled)
            ∙ complete-closed env (keyed env input row) result tx qr code';
      }

  fresh-IsPaid :
      (a : Accepted) (tx : QrDb) {v : RedemptionView} {after : QrDb}
      → find_key input.sender_customer_id (env.sha256 input.idempotency_key) db ≡ none
      → accept_fresh env input db ≡ ok (a, tx)
      → settle_accepted env db (ok (a, tx)) ≡ (ok v, after)
      → v.status ≡ completed
      → IsPaid env input db after
  fresh-IsPaid a tx {v} {after} free made h done =
      let s = accept_fresh-IsAccepted env input db {a = a} {db' = tx} made in
      keyed-IsPaid s.row s.qr {v = v} {after = after} free s.found s.pending_row s.code s.live
        ((λ i. settle_accepted env db (ok (s.made i, s.written i))) ∙ h) done

-- A confirmation that comes back completed either is the replay of a redemption under its key for
-- the same request, or found the token's redemption waiting, its code neither past its time nor
-- expired, and the key unused; then the Ledger has moved the redemption's amount to the code's
-- recipient, and the code is redeemed afterwards: if no other session writes during the settlement.
pub confirm-IsPaid :
    (env : QrEnv) (input : ConfirmInput) (db : QrDb) {v : RedemptionView} {after : QrDb}
    → ((d : QrDb) → env.meanwhile d ≡ d)
    → confirm env input db ≡ (ok v, after)
    → v.status ≡ completed
    → IsReplay env input db v ⊎ IsPaid env input db after
unfolding confirm accept settle_accepted
confirm-IsPaid env input db {v} {after} quiet h done =
    elim (Option-cases (find_key input.sender_customer_id (env.sha256 input.idempotency_key) db)) [
      | inl free ↦ elim (Result-cases (accept_fresh env input db)) [
        | inl ((a, tx), made) ↦ inr (
            fresh-IsPaid env input db quiet a tx {v = v} {after = after} free made
              (rw (free, accept, made) at h) done)
        | inr (e, failed) ↦ absurd (ground (arith, rw (free, accept, failed, settle_accepted) at h))
      ]
      | inr (existing, taken) ↦
          elim (Bool-cases (existing.request_hash == request_hash_of env input)) [
            | inl same ↦ inl (record {
              existing = existing;
              taken = taken;
              same = ==→≡ existing.request_hash (request_hash_of env input) same;
              shown = ok_inj (ap (λ p. p.0) (rw (taken, accept, same, settle_accepted) at h));
            })
            | inr other ↦ absurd (ground (arith, rw (taken, accept, other, settle_accepted) at h))
          ]
    ]
