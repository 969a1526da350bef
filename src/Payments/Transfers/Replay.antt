-- ===== src/Payments/Transfers/Replay.antt =====
-- transfers.service.ts `confirm`: a confirmation that is sent again.
use aegis_shield_phase.Prelude.{
  ◌≡◌, refl, sym, ◌∙◌, ap, true, ◌&&◌, none, some, arith, ◌==◌, find, find-append, is_some, ==_refl,
  ==→≡, Result, ok, err, ok_inj, Result-cases, Option-cases, Bool-cases, inl, inr,
}
use aegis_shield_phase.Payments.Schema.{Ident, PaymentsFailure, TransferIntent, Transfer, Db}
use aegis_shield_phase.Payments.Calls.{CallEnv, TransferConfirmation, RequestPayload}
use aegis_shield_phase.Payments.Settlement.{settle}
use aegis_shield_phase.Payments.Transfers.{
  find_intent, find_replay, new_transfer, write_transfer, replay_transfer, request_payload,
  prepare_fresh, prepare, settle_prepared, shown, confirm,
}
use aegis_shield_phase.Payments.Transfers.Views.{TransferDetail, as_detail}
use aegis_shield_phase.Payments.Transfers.Laws.{prepare_fresh-IsFresh, intent_consumed}
use aegis_shield_phase.Payments.Transfers.Kept.{find_id, settle-IsKept}

shown-ok :
    (env : CallEnv) (customer : Ident) (x : Result PaymentsFailure Transfer × Db)
    {d : TransferDetail} {after : Db}
    → shown env customer x ≡ (ok d, after)
    → (row : Transfer) × (x ≡ (ok row, after)) × (as_detail env.formats row customer ≡ some d)
shown-ok env customer (err e, db) h = absurd (ground (arith, h))
shown-ok env customer (ok row, db) h = elim (Option-cases (as_detail env.formats row customer)) [
  | inl refused ↦ absurd (ground (arith, rw refused at h))
  | inr (d', view) ↦
      let h' = rw view at h in
      (row, ap (λ b. (ok row, b)) (ap (λ p. p.1) h'), view ∙ ap some (ok_inj (ap (λ p. p.0) h')))
]

-- What a confirmation returns is the view of the transfer under its key, which is of the intent's
-- request; the intent is still there, and authorized.
record IsStored (env : CallEnv) (input : TransferConfirmation) (d : TransferDetail) (after : Db)
    : Type 0 where
  intent : TransferIntent
  row : Transfer
  there : find_intent input.token_hash input.sender_customer_id after ≡ some intent
  authorized : is_some intent.authorized_at ≡ true
  found : find_replay input.sender_customer_id input.key_hash after ≡ some row
  hash : row.request_hash ≡ env.canonical_hash (request_payload input.sender_customer_id intent)
  view : as_detail env.formats row input.sender_customer_id ≡ some d

-- Such a transfer is what `confirm` returns.
confirm_stored :
    (env : CallEnv) (input : TransferConfirmation) {d : TransferDetail} {after : Db}
    → IsStored env input d after
    → confirm env input after ≡ (ok d, after)
unfolding confirm
confirm_stored env input s =
    rw
      (
        s.there,
        s.authorized,
        s.found,
        confirm,
        s.hash,
        ==_refl (env.canonical_hash (request_payload input.sender_customer_id s.intent)),
        s.view,
      )
      refl

module _ (env : CallEnv) (input : TransferConfirmation) (db : Db) where
  made-IsStored :
      (intent : TransferIntent) {d : TransferDetail} {after : Db}
      → find_intent input.token_hash input.sender_customer_id db ≡ some intent
      → is_some intent.authorized_at ≡ true
      → find_replay input.sender_customer_id input.key_hash db ≡ none
      → find_id env.transfer_id db.transfers ≡ none
      → shown env input.sender_customer_id
          (settle env (new_transfer env input intent) (write_transfer env input intent db))
        ≡ (ok d, after)
      → IsStored env input d after
  made-IsStored intent {after = after} there authorized free new h =
      let row = new_transfer env input intent in
      let (u, settled, view) = shown-ok env input.sender_customer_id _ h in
      let kept =
        settle-IsKept env input.sender_customer_id input.key_hash row
          (write_transfer env input intent db) {u = u} {after = after}
          (find-append (λ (t : Transfer). t.id == env.transfer_id) db.transfers row new
            (==_refl env.transfer_id))
          (find-append
            (λ (t : Transfer).
              t.sender_customer_id == input.sender_customer_id
              && t.idempotency_key_hash == input.key_hash)
            db.transfers row free
            (ground (arith, ==_refl input.sender_customer_id, ==_refl input.key_hash)))
          settled in
      record {
        intent = record intent { consumed_at = some env.now };
        row = u;
        there =
            ap
              (find (λ (i : TransferIntent).
                i.token_hash == input.token_hash
                && i.sender_customer_id == input.sender_customer_id))
              kept.intents
            ∙ intent_consumed env input intent db there;
        authorized = authorized;
        found = kept.found;
        hash = kept.hash;
        view = view;
      }

  prepared-IsStored :
      (intent : TransferIntent) {d : TransferDetail} {after : Db}
      → find_intent input.token_hash input.sender_customer_id db ≡ some intent
      → is_some intent.authorized_at ≡ true
      → find_replay input.sender_customer_id input.key_hash db ≡ none
      → find_id env.transfer_id db.transfers ≡ none
      → settle_prepared env input.sender_customer_id db (prepare env input db) ≡ (ok d, after)
      → IsStored env input d after
  unfolding settle_prepared prepare
  prepared-IsStored intent {d} {after} there authorized free new h =
      elim (Result-cases (prepare_fresh env input intent db)) [
        | inr (e, refused) ↦
            absurd (ground (arith, rw (there, free, prepare, refused, settle_prepared) at h))
        | inl ((p, tx), passed) ↦
            let s = prepare_fresh-IsFresh env input intent db {p = p} {tx' = tx} passed in
            made-IsStored intent {d = d} {after = after} there authorized free new (
              (λ i. settle_prepared env input.sender_customer_id db (ok (s.made i, s.written i)))
              ∙ rw (there, free, prepare, passed) at h)
      ]

  replayed-IsStored :
      (intent : TransferIntent) (existing : Transfer) {d : TransferDetail} {after : Db}
      → find_intent input.token_hash input.sender_customer_id db ≡ some intent
      → is_some intent.authorized_at ≡ true
      → find_replay input.sender_customer_id input.key_hash db ≡ some existing
      → shown env input.sender_customer_id (replay_transfer env input intent existing, db)
        ≡ (ok d, after)
      → IsStored env input d after
  replayed-IsStored intent existing there authorized found h =
      let hash = env.canonical_hash (request_payload input.sender_customer_id intent) in
      elim (Bool-cases (existing.request_hash == hash)) [
        | inr other ↦ absurd (ground (arith, rw other at h))
        | inl same ↦
            let (u, out, view) = shown-ok env input.sender_customer_id _ (rw same at h) in
            let row_is = ok_inj (ap (λ p. p.0) out) in
            let tables = ap (λ p. p.1) out in
            record {
              intent = intent;
              row = u;
              there =
                  ap (find_intent input.token_hash input.sender_customer_id) (sym tables) ∙ there;
              authorized = authorized;
              found =
                  ap (find_replay input.sender_customer_id input.key_hash) (sym tables)
                  ∙ found
                  ∙ ap some row_is;
              hash =
                  ap (λ (t : Transfer). t.request_hash) (sym row_is)
                  ∙ ==→≡ existing.request_hash hash same;
              view = view;
            }
      ]

  confirm-IsStored :
      {d : TransferDetail} {after : Db}
      → env.before_transaction db ≡ db
      → find_id env.transfer_id db.transfers ≡ none
      → confirm env input db ≡ (ok d, after)
      → IsStored env input d after
  unfolding confirm
  confirm-IsStored {d} {after} quiet new h =
      elim (Option-cases (find_intent input.token_hash input.sender_customer_id db)) [
        | inl gone ↦ absurd (ground (arith, rw (gone, confirm) at h))
        | inr (intent, there) ↦ elim (Bool-cases (is_some intent.authorized_at)) [
          | inr refused ↦ absurd (ground (arith, rw (there, refused, confirm) at h))
          | inl authorized ↦
              elim (Option-cases (find_replay input.sender_customer_id input.key_hash db)) [
                | inr (existing, found) ↦
                    replayed-IsStored intent existing {d = d} {after = after} there authorized found
                      (rw (there, authorized, found, confirm) at h)
                | inl free ↦ elim (Result-cases (env.enforce intent)) [
                  | inr (risk, held) ↦
                      absurd (ground (arith, rw (there, authorized, free, held, confirm) at h))
                  | inl (u, passed) ↦
                      prepared-IsStored intent {d = d} {after = after} there authorized free new (
                        ap
                          (λ b.
                            settle_prepared env input.sender_customer_id b (prepare env input b))
                          (sym quiet)
                        ∙ rw (there, authorized, free, passed, confirm) at h)
                ]
              ]
        ]
      ]

-- A confirmation that returned is answered with the same view when it is sent again, and writes
-- nothing then, whatever the clock, the risk service and the Ledger say, whether the transfer is
-- completed, failed or still in PROCESSING: if the hash is a function, the view's formats are the
-- same, no other session writes before the first transaction, and the new transfer's identifier
-- is unused.
pub confirm_sent_again :
    (env env' : CallEnv) (input : TransferConfirmation) (db : Db) {d : TransferDetail} {after : Db}
    → ((payload : RequestPayload) → env'.canonical_hash payload ≡ env.canonical_hash payload)
    → env'.formats ≡ env.formats
    → env.before_transaction db ≡ db
    → find_id env.transfer_id db.transfers ≡ none
    → confirm env input db ≡ (ok d, after)
    → confirm env' input after ≡ (ok d, after)
confirm_sent_again env env' input db {d} {after} hashes formats quiet new h =
    let s = confirm-IsStored env input db {d = d} {after = after} quiet new h in
    confirm_stored env' input {d = d} {after = after} (record {
      intent = s.intent;
      row = s.row;
      there = s.there;
      authorized = s.authorized;
      found = s.found;
      hash = s.hash ∙ sym (hashes (request_payload input.sender_customer_id s.intent));
      view = ap (λ f. as_detail f s.row input.sender_customer_id) formats ∙ s.view;
    })
