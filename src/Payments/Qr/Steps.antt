-- ===== src/Payments/Qr/Steps.antt =====
-- qr.service.ts: the writes of its calls as steps of the database, in any order.
pub mod Scanned
use aegis_shield_phase.Prelude.{
  ℕ, suc, ◌+◌, ◌≤◌, ◌≡◌, refl, sym, ◌∙◌, ap, Bool, true, false, ◌&&◌, ◌||◌, Option, none, some,
  List, [], ◌∷◌, ◌++◌, arith, ◌==◌, if◌then◌else◌, length, find, filter, any, update_where, ok, err,
  Result, ltb, >>=-eq-ok, throw_if, or_throw, ◌>>=◌, ok_inj, not, leb, guards-eq-ok, Result-cases,
  Bool-cases, Option-cases, inl, inr,
}
use aegis_shield_phase.Payments.Schema.{Ident}
use aegis_shield_phase.Payments.Calls.{ledger_call_error, other_exception}
use aegis_shield_phase.Payments.Qr.Schema.{
  completed, QrPaymentStatus, QrPaymentRequest, QrRedemption, QrDb, qr_invalid, qr_expired,
  qr_already_redeemed, missing_relation, QrFailure, qr_error, unique_violation,
}
use aegis_shield_phase.Payments.Qr.Codes.{SignedQrPayload}
use aegis_shield_phase.Payments.Qr.Env.{QrEnv}
use aegis_shield_phase.Payments.Qr.Issue.{
  IssueInput, IssuedQr, issuing_account, read_amount, truthy, nonce_taken, issue, write_request,
}
use aegis_shield_phase.Payments.Qr.Preview.{
  PreviewInput, QrPreview, check_code, check_request, sending_account, redemption_amount, clashes,
  new_redemption, find_by_nonce, record_scan, preview,
}
use aegis_shield_phase.Payments.Qr.Confirm.{
  ConfirmInput, Accepted, accept, accept_fresh, replay, write_key, request_hash_of, keyed,
  find_token, find_key, key_taken, is_processing, is_expired,
}
use aegis_shield_phase.Payments.Qr.Confirm.Settle.{
  settle, complete, fail_payment, request_of, recipient_reference, completed_row, failed_row,
}

-- A step is one transaction, or the writes that follow an answer of the Ledger, for any row.
pub data Step : QrDb → QrDb → Type 0 where
  issued :
      (env : QrEnv) (input : IssueInput) (db db' : QrDb) (v : IssuedQr)
      → issue env input db ≡ ok (v, db')
      → Step db db'
  previewed :
      (env : QrEnv) (input : PreviewInput) (db db' : QrDb) (v : QrPreview)
      → preview env input db ≡ ok (v, db')
      → Step db db'
  accepted :
      (env : QrEnv) (input : ConfirmInput) (db db' : QrDb) (a : Accepted)
      → accept env input db ≡ ok (a, db')
      → Step db db'
  settled : (env : QrEnv) (row : QrRedemption) (db : QrDb) → Step db (settle env row db).1

pub data Steps : QrDb → QrDb → Type 0 where
  stay : (db : QrDb) → Steps db db
  go : (a b c : QrDb) → Steps a b → Step b c → Steps a c

-- What a step does to the redemptions: it adds one that clashes with none, or changes some in
-- place without moving them to another code.
pub data Change (rows rows' : List QrRedemption) : Type 0 where
  kept : rows' ≡ rows → Change rows rows'
  added :
      (new : QrRedemption)
      → any (clashes new) rows ≡ false
      → rows' ≡ rows ++ new ∷ []
      → Change rows rows'
  changed :
      (hit : QrRedemption → Bool) (f : QrRedemption → QrRedemption)
      → ((r : QrRedemption) → (f r).qr_payment_request_id ≡ r.qr_payment_request_id)
      → rows' ≡ update_where hit f rows
      → Change rows rows'

-- What a step does to the requests: it appends some, or changes some in place that keep their
-- identifier and nonce.
pub data RequestChange (rows rows' : List QrPaymentRequest) : Type 0 where
  appended : (new : List QrPaymentRequest) → rows' ≡ rows ++ new → RequestChange rows rows'
  revised :
      (hit : QrPaymentRequest → Bool) (f : QrPaymentRequest → QrPaymentRequest)
      → ((q : QrPaymentRequest) → ((f q).id ≡ q.id) × ((f q).nonce_hash ≡ q.nonce_hash))
      → rows' ≡ update_where hit f rows
      → RequestChange rows rows'

abbrev pub Changes : QrDb → QrDb → Type 0
Changes db db' = Change db.redemptions db'.redemptions × RequestChange db.requests db'.requests

append_none : (rows : List QrPaymentRequest) → rows ≡ rows ++ []
append_none [] = refl
append_none (r ∷ rows) = λ i. r ∷ append_none rows i

-- The requests that do not change.
same_requests : (rows : List QrPaymentRequest) → RequestChange rows rows
same_requests rows = appended [] (append_none rows)

issued-Changes :
    (env : QrEnv) (input : IssueInput) (db : QrDb) {db' : QrDb} {v : IssuedQr}
    → issue env input db ≡ ok (v, db')
    → Changes db db'
unfolding issue write_request
issued-Changes env input db {db'} {v} h =
    let (detail, _, h1) = >>=-eq-ok (issuing_account env input) _ h in
    let (amount, _, h2) = >>=-eq-ok (read_amount env (truthy input.amount_minor)) _ h1 in
    let (_, _, h3) = >>=-eq-ok (throw_if (nonce_taken env db) unique_violation) _ h2 in
    let made = ap (λ p. p.1) (ok_inj h3) in
    (
      kept (ap (λ (d : QrDb). d.redemptions) (sym made)),
      appended _ (ap (λ (d : QrDb). d.requests) (sym made)),
    )

-- A preview that returns has found the request of its code, and added its redemption.
pub record IsScanned (env : QrEnv) (input : PreviewInput) (db db' : QrDb) : Type 0 where
  pub payload : SignedQrPayload
  pub decoded : env.decode input.payload ≡ some payload
  pub qr : QrPaymentRequest
  pub found : find_by_nonce (env.sha256 payload.data_of.nonce) db ≡ some qr
  pub new : QrRedemption
  pub of_qr : new.qr_payment_request_id ≡ qr.id
  pub free : any (clashes new) db.redemptions ≡ false
  pub written : db'.redemptions ≡ db.redemptions ++ new ∷ []
  pub same : db'.requests ≡ db.requests

or_throw-eq-ok : {E A : Type 0} (o : Option A) (e : E) {a : A} → or_throw o e ≡ ok a → o ≡ some a
or_throw-eq-ok none e h = cc
or_throw-eq-ok (some b) e h = cc

throw_if-eq-ok : {E : Type 0} (b : Bool) (e : E) {u : Unit} → throw_if b e ≡ ok u → b ≡ false
throw_if-eq-ok false e h = refl
throw_if-eq-ok true e h = cc

pub preview-IsScanned :
    (env : QrEnv) (input : PreviewInput) (db : QrDb) {db' : QrDb} {v : QrPreview}
    → preview env input db ≡ ok (v, db')
    → IsScanned env input db db'
unfolding preview record_scan
preview-IsScanned env input db {db'} {v} h =
    let (payload, h0, h1) =
      >>=-eq-ok (or_throw (env.decode input.payload) (qr_error qr_invalid)) _ h in
    let (_, _, h2) = >>=-eq-ok (check_code env payload) _ h1 in
    let (qr, hq, h3) =
      >>=-eq-ok
        (or_throw (find_by_nonce (env.sha256 payload.data_of.nonce) db) (qr_error qr_invalid)) _
        h2 in
    let (_, _, h4) = >>=-eq-ok (check_request input qr) _ h3 in
    let (detail, _, h5) = >>=-eq-ok (sending_account env input) _ h4 in
    let (amount, _, h6) = >>=-eq-ok (redemption_amount env qr payload.data_of.amount_minor) _ h5 in
    let (after, hs, h7) =
      >>=-eq-ok (record_scan env (new_redemption env input qr detail amount) db) _ h6 in
    let (_, free, hw) =
      >>=-eq-ok
        (throw_if (any (clashes (new_redemption env input qr detail amount)) db.redemptions)
          unique_violation)
        _ hs in
    let made = ok_inj hw ∙ ap (λ p. p.1) (ok_inj h7) in
    record {
      payload = payload;
      decoded = or_throw-eq-ok _ _ h0;
      qr = qr;
      found = or_throw-eq-ok _ _ hq;
      new = new_redemption env input qr detail amount;
      of_qr = refl;
      free = throw_if-eq-ok _ _ free;
      written = ap (λ (d : QrDb). d.redemptions) (sym made);
      same = ap (λ (d : QrDb). d.requests) (sym made);
    }

preview-Changes :
    (env : QrEnv) (input : PreviewInput) (db : QrDb) {db' : QrDb} {v : QrPreview}
    → preview env input db ≡ ok (v, db')
    → Changes db db'
preview-Changes env input db {db'} h =
    let s = preview-IsScanned env input db {db' = db'} h in
    (added s.new s.free s.written, appended [] (s.same ∙ append_none db.requests))

-- A replay writes nothing.
pub replay-same :
    (env : QrEnv) (input : ConfirmInput) (existing : QrRedemption) (db : QrDb) {a : Accepted}
    {db' : QrDb}
    → replay env input existing db ≡ ok (a, db')
    → (record { redemption = existing; replayed = true } ≡ a) × (db ≡ db')
replay-same env input existing db h =
    elim (Bool-cases (existing.request_hash == request_hash_of env input)) [
      | inl same ↦ let made = ok_inj (rw same at h) in (ap (λ p. p.0) made, ap (λ p. p.1) made)
      | inr other ↦ absurd (ground (arith, rw other at h))
    ]

-- What a fresh confirmation has found and written.
pub record IsAccepted (env : QrEnv) (input : ConfirmInput) (db : QrDb) (a : Accepted) (db' : QrDb)
    : Type 0 where
  pub row : QrRedemption
  pub found : find_token (env.sha256 input.intent_token) db ≡ some row
  pub qr : QrPaymentRequest
  pub code : request_of row db ≡ some qr
  pub pending_row : is_processing row.status ≡ true
  pub live : (leb qr.expires_at env.now || is_expired qr.status) ≡ false
  pub made : (record { redemption = keyed env input row; replayed = false }) ≡ a
  pub written : write_key env input row db ≡ db'

pub accept_fresh-IsAccepted :
    (env : QrEnv) (input : ConfirmInput) (db : QrDb) {a : Accepted} {db' : QrDb}
    → accept_fresh env input db ≡ ok (a, db')
    → IsAccepted env input db a db'
unfolding accept_fresh
accept_fresh-IsAccepted env input db h =
    let (row, hr, h1) =
      >>=-eq-ok (or_throw (find_token (env.sha256 input.intent_token) db) (qr_error qr_invalid)) _
        h in
    let (qr, hq, h2) = >>=-eq-ok (or_throw (request_of row db) missing_relation) _ h1 in
    let (waiting, live, _, same) =
      guards-eq-ok (not (is_processing row.status))
        (leb qr.expires_at env.now || is_expired qr.status) (key_taken env input row db)
        (qr_error qr_already_redeemed) (qr_error qr_expired) unique_violation
        (record { redemption = keyed env input row; replayed = false }, write_key env input row db)
        h2 in
    record {
      row = row;
      found = or_throw-eq-ok _ _ hr;
      qr = qr;
      code = or_throw-eq-ok _ _ hq;
      pending_row = ground (arith, waiting);
      live = live;
      made = ap (λ p. p.0) same;
      written = ap (λ p. p.1) same;
    }

accept-Changes :
    (env : QrEnv) (input : ConfirmInput) (db : QrDb) {db' : QrDb} {a : Accepted}
    → accept env input db ≡ ok (a, db')
    → Changes db db'
unfolding accept
accept-Changes env input db {db'} h =
    elim (Option-cases (find_key input.sender_customer_id (env.sha256 input.idempotency_key) db)) [
      | inr (existing, taken) ↦
          let (_, same) = replay-same env input existing db (rw (taken, accept) at h) in
          (
            kept (ap (λ (d : QrDb). d.redemptions) (sym same)),
            appended [] (ap (λ (d : QrDb). d.requests) (sym same) ∙ append_none db.requests),
          )
      | inl free ↦
          let s = accept_fresh-IsAccepted env input db {db' = db'} (rw (free, accept) at h) in
          (
            changed (λ (r : QrRedemption). r.id == s.row.id) (keyed env input) (λ r. refl)
                (ap (λ (d : QrDb). d.redemptions) (sym s.written)),
            appended [] (ap (λ (d : QrDb). d.requests) (sym s.written) ∙ append_none db.requests),
          )
    ]

settle-Changes : (env : QrEnv) (row : QrRedemption) (db : QrDb) → Changes db (settle env row db).1
unfolding settle complete fail_payment
settle-Changes env row db =
    elim (Result-cases (env.ledger_transfer row (recipient_reference row db))) [
      | inl (result, paid) ↦
          rw (paid, settle)
            (
              changed (λ (r : QrRedemption). r.id == row.id) (completed_row env result) (λ r. refl)
                  refl,
              revised (λ (q : QrPaymentRequest). q.id == row.qr_payment_request_id) _
                  (λ q. (refl, refl)) refl,
            )
      | inr (other_exception, failed) ↦ rw (failed, settle) (kept refl, same_requests db.requests)
      | inr (ledger_call_error status code, failed) ↦ elim (Bool-cases (ltb status 500)) [
        | inl refused ↦
            rw (failed, refused, settle)
              (
                changed (λ (r : QrRedemption). r.id == row.id) (failed_row env) (λ r. refl) refl,
                same_requests db.requests,
              )
        | inr down ↦ rw (failed, down, settle) (kept refl, same_requests db.requests)
      ]
    ]

pub Step-Changes : {db db' : QrDb} → Step db db' → Changes db db'
Step-Changes (issued env input db db' v h) = issued-Changes env input db {db' = db'} h
Step-Changes (previewed env input db db' v h) = preview-Changes env input db {db' = db'} h
Step-Changes (accepted env input db db' a h) = accept-Changes env input db {db' = db'} h
Step-Changes (settled env row db) = settle-Changes env row db
