-- ===== src/Payments/Transfers/Kept.antt =====
-- transfers.service.ts `settle`: where a settled transfer is found.
use aegis_shield_phase.Prelude.{
  ◌≡◌, refl, sym, ◌∙◌, ap, ◌&&◌, Option, some, List, arith, ltb, ◌==◌, find, find_updated,
  update_where, get_or, ==_refl, Result, ok, ok_inj, Result-cases, Bool-cases, inl, inr,
}
use aegis_shield_phase.Payments.Schema.{Ident, TransferEvent, PaymentsFailure, Transfer, Db}
use aegis_shield_phase.Payments.Calls.{CallEnv, ledger_call_error, other_exception}
use aegis_shield_phase.Payments.Settlement.{
  completed_row, failed_row, update_transfer, settle, returned,
}
use aegis_shield_phase.Payments.Transfers.{find_replay}

abbrev pub find_id : Ident → List Transfer → Option Transfer
find_id i rows = find (λ (t : Transfer). t.id == i) rows

-- Settlement leaves the row where its key finds it, with its hash, and the intents as they were.
pub record IsKept (sender key : Ident) (row : Transfer) (db : Db) (u : Transfer) (after : Db)
    : Type 0 where
  pub found : find_replay sender key after ≡ some u
  pub hash : u.request_hash ≡ row.request_hash
  pub intents : after.intents ≡ db.intents

updated-found :
    (f : Transfer → Transfer) (row : Transfer) (rows : List Transfer)
    → ((t : Transfer) → (f t).id ≡ t.id)
    → find_id row.id rows ≡ some row
    → get_or (find_id row.id (update_where (λ (t : Transfer). t.id == row.id) f rows)) row ≡ f row
updated-found f row rows same h =
    ap (λ o. get_or o row)
      (find_updated (λ (t : Transfer). t.id == row.id) (λ (t : Transfer). t.id == row.id) f rows row
        (λ t. ap (λ i. i == row.id) (same t)) (==_refl row.id) h)

same-IsKept :
    (sender key : Ident) (row : Transfer) (db : Db) {u : Transfer} {after : Db}
    → find_replay sender key db ≡ some row
    → ◌≡◌ {A = Result PaymentsFailure Transfer × Db} (ok row, db) (ok u, after)
    → IsKept sender key row db u after
same-IsKept sender key row db found h =
    let same = ok_inj (ap (λ p. p.0) h) in
    let tables = ap (λ p. p.1) h in
    record {
      found = ap (find_replay sender key) (sym tables) ∙ found ∙ ap some same;
      hash = ap (λ (t : Transfer). t.request_hash) (sym same);
      intents = ap (λ (d : Db). d.intents) (sym tables);
    }

updated-IsKept :
    (sender key : Ident) (row : Transfer) (db : Db) (f : Transfer → Transfer)
    (events : List TransferEvent) {u : Transfer} {after : Db}
    → ((t : Transfer) → (f t).id ≡ t.id)
    → ((t : Transfer)
        → ((f t).sender_customer_id == sender && (f t).idempotency_key_hash == key)
          ≡ (t.sender_customer_id == sender && t.idempotency_key_hash == key))
    → (f row).request_hash ≡ row.request_hash
    → find_id row.id db.transfers ≡ some row
    → find_replay sender key db ≡ some row
    → returned (update_transfer row f events db) ≡ (ok u, after)
    → IsKept sender key row db u after
updated-IsKept sender key row db f events same keyed hash own found h =
    let row_is = sym (updated-found f row db.transfers same own) ∙ ok_inj (ap (λ p. p.0) h) in
    let tables = ap (λ p. p.1) h in
    record {
      found =
          ap (find_replay sender key) (sym tables)
          ∙ find_updated
              (λ (t : Transfer). t.sender_customer_id == sender && t.idempotency_key_hash == key)
              (λ (t : Transfer). t.id == row.id) f db.transfers row keyed (==_refl row.id) found
          ∙ ap some row_is;
      hash = ap (λ (t : Transfer). t.request_hash) (sym row_is) ∙ hash;
      intents = ap (λ (d : Db). d.intents) (sym tables);
    }

pub settle-IsKept :
    (env : CallEnv) (sender key : Ident) (row : Transfer) (db : Db) {u : Transfer} {after : Db}
    → find_id row.id db.transfers ≡ some row
    → find_replay sender key db ≡ some row
    → settle env row db ≡ (ok u, after)
    → IsKept sender key row db u after
unfolding settle
settle-IsKept env sender key row db {u} {after} own found h =
    let same = same-IsKept sender key row db {u = u} {after = after} found in
    elim (Result-cases (env.ledger_transfer row)) [
      | inl (result, paid) ↦ elim (Bool-cases (env.update_fails row)) [
        | inl lost ↦ same (rw (paid, lost, settle) at h)
        | inr kept ↦
            updated-IsKept sender key row db (completed_row env result) _ {u = u} {after = after}
              (λ t. refl) (λ t. refl) refl own found (rw (paid, kept, settle) at h)
      ]
      | inr (other_exception, failed) ↦ same (rw (failed, settle) at h)
      | inr (ledger_call_error status code, failed) ↦ elim (Bool-cases (ltb status 500)) [
        | inr down ↦ same (rw (failed, down, settle) at h)
        | inl refused ↦ elim (Bool-cases (env.update_fails row)) [
          | inl lost ↦ absurd (ground (arith, rw (failed, refused, lost, settle) at h))
          | inr kept ↦
              updated-IsKept sender key row db (failed_row env code) _ {u = u} {after = after}
                (λ t. refl) (λ t. refl) refl own found (rw (failed, refused, kept, settle) at h)
        ]
      ]
    ]
