-- ===== src/Payments/Transfers/Laws.antt =====
-- transfers.service.ts `confirm`: its transaction, by the transfers that it makes.
use aegis_shield_phase.Prelude.{
  ◌≤◌, ◌≡◌, refl, ap, sym, Bool, true, false, not, ◌&&◌, ◌||◌, none, some, List, [], ◌∷◌, ◌++◌, inl,
  inr, arith, leb, ◌==◌, if◌then◌else◌, is_some, ==_refl, Option-cases, ok, err, >>=-eq-ok,
  guards-eq-ok, find_updated,
}
use aegis_shield_phase.Prelude.Int.{ℤ, ◌+ℤ◌, ltb_ℤ, ◌≤ℤ◌, int_laws, eq_of_parts}
use aegis_shield_phase.Payments.Schema.{
  Ident, intent_expired, payments_error, unique_violation, limit_exceeded, TransferIntent, Transfer,
  Db,
}
use aegis_shield_phase.Payments.Calls.{CallEnv, TransferConfirmation}
use aegis_shield_phase.Payments.Transfers.{
  Prepared, find_intent, find_replay, counts_today, reserved_sum, new_transfer, write_transfer,
  violates_unique, prepare_fresh, replay_transfer, prepare,
}

sum_step :
    (b : Bool) (a r r' t : ℤ)
    → r' ≡ r +ℤ t
    → (if b then a +ℤ r' else r') ≡ (if b then a +ℤ r else r) +ℤ t
sum_step true a r r' t h = rw h (eq_of_parts _ _ (omega int_laws))
sum_step false a r r' t h = h

reserved_sum-append :
    (env : CallEnv) (sender : Ident) (ts : List Transfer) (t : Transfer)
    → counts_today env sender t ≡ true
    → reserved_sum env sender (ts ++ t ∷ []) ≡ reserved_sum env sender ts +ℤ t.amount_minor
unfolding reserved_sum
reserved_sum-append env sender [] t h = rw (h, reserved_sum) (eq_of_parts _ _ (omega int_laws))
reserved_sum-append env sender (x ∷ ts) t h =
    sum_step (counts_today env sender x) x.amount_minor (reserved_sum env sender ts)
      (reserved_sum env sender (ts ++ t ∷ [])) t.amount_minor
      (reserved_sum-append env sender ts t h)

-- What the transaction has checked and written when it makes a new transfer.
pub record IsFresh (env : CallEnv) (input : TransferConfirmation) (intent : TransferIntent)
    (tx : Db) (p : Prepared) (tx' : Db) : Type 0 where
  pub live :
      (leb intent.expires_at env.now
        || is_some intent.consumed_at
        || not (is_some intent.authorized_at))
      ≡ false
  pub within :
      ltb_ℤ env.daily_outgoing_limit_minor
        (reserved_sum env input.sender_customer_id tx.transfers +ℤ intent.amount_minor)
      ≡ false
  pub made : (record { row = new_transfer env input intent; replayed = false }) ≡ p
  pub written : write_transfer env input intent tx ≡ tx'

pub prepare_fresh-IsFresh :
    (env : CallEnv) (input : TransferConfirmation) (intent : TransferIntent) (tx : Db)
    {p : Prepared} {tx' : Db}
    → prepare_fresh env input intent tx ≡ ok (p, tx')
    → IsFresh env input intent tx p tx'
unfolding prepare_fresh
prepare_fresh-IsFresh env input intent tx h =
    let (live, within, _, same) =
      guards-eq-ok
        (leb intent.expires_at env.now
          || is_some intent.consumed_at
          || not (is_some intent.authorized_at))
        (ltb_ℤ env.daily_outgoing_limit_minor
          (reserved_sum env input.sender_customer_id tx.transfers +ℤ intent.amount_minor))
        (violates_unique env intent tx) (payments_error intent_expired)
        (payments_error limit_exceeded) unique_violation
        (
          record { row = new_transfer env input intent; replayed = false },
          write_transfer env input intent tx,
        )
        h in
    record { live = live; within = within; made = ap (λ q. q.0) same; written = ap (λ q. q.1) same }

-- A new transfer is made of an intent that is there, under a key that no transfer has.
pub record IsNew (env : CallEnv) (input : TransferConfirmation) (tx : Db) (p : Prepared) (tx' : Db)
    : Type 0 where
  pub intent : TransferIntent
  pub found : find_intent input.token_hash input.sender_customer_id tx ≡ some intent
  pub free : find_replay input.sender_customer_id input.key_hash tx ≡ none
  pub fresh : IsFresh env input intent tx p tx'

pub prepare-IsNew :
    (env : CallEnv) (input : TransferConfirmation) (tx : Db) {p : Prepared} {tx' : Db}
    → prepare env input tx ≡ ok (p, tx')
    → p.replayed ≡ false
    → IsNew env input tx p tx'
unfolding prepare
prepare-IsNew env input tx {p} h new =
    elim (Option-cases (find_intent input.token_hash input.sender_customer_id tx)) [
      | inl gone ↦ absurd (ground (arith, rw (gone, prepare) at h))
      | inr (intent, found) ↦
          elim (Option-cases (find_replay input.sender_customer_id input.key_hash tx)) [
            | inr (existing, taken) ↦
                let (row, _, same) =
                  >>=-eq-ok (replay_transfer env input intent existing) _
                    (rw (found, taken, prepare) at h) in
                absurd (ground (arith, same, new))
            | inl free ↦ record {
              intent = intent;
              found = found;
              free = free;
              fresh = prepare_fresh-IsFresh env input intent tx (rw (found, free, prepare) at h);
            }
          ]
    ]

not_above : (a b : ℤ) → ltb_ℤ a b ≡ false → b ≤ℤ a
not_above a b h = ground arith

-- A confirmation that makes a transfer leaves what the sender has reserved since the day began,
-- the new transfer included, within the daily limit, if the day began before now.
pub prepare_within_limit :
    (env : CallEnv) (input : TransferConfirmation) (tx : Db) {p : Prepared} {tx' : Db}
    → env.day_start ≤ env.now
    → prepare env input tx ≡ ok (p, tx')
    → p.replayed ≡ false
    → reserved_sum env input.sender_customer_id tx'.transfers ≤ℤ env.daily_outgoing_limit_minor
prepare_within_limit env input tx {p} {tx'} today h new =
    let n = prepare-IsNew env input tx h new in
    let counted : counts_today env input.sender_customer_id (new_transfer env input n.intent)
        ≡ true =
      ground arith in
    let sum =
      reserved_sum-append env input.sender_customer_id tx.transfers
        (new_transfer env input n.intent) counted in
    rw (sym (ap (λ (d : Db). d.transfers) n.fresh.written), sum)
      (not_above env.daily_outgoing_limit_minor
        (reserved_sum env input.sender_customer_id tx.transfers +ℤ n.intent.amount_minor)
        n.fresh.within)

-- After a transfer was made, its intent is found as before, and is consumed.
pub intent_consumed :
    (env : CallEnv) (input : TransferConfirmation) (intent : TransferIntent) (tx : Db)
    → find_intent input.token_hash input.sender_customer_id tx ≡ some intent
    → find_intent input.token_hash input.sender_customer_id (write_transfer env input intent tx)
      ≡ some (record intent { consumed_at = some env.now })
intent_consumed env input intent tx found =
    find_updated
      (λ (i : TransferIntent).
        i.token_hash == input.token_hash && i.sender_customer_id == input.sender_customer_id)
      (λ (i : TransferIntent). i.id == intent.id) (λ i. record i { consumed_at = some env.now })
      tx.intents intent (λ i. refl) (==_refl intent.id) found

consumed_refused :
    (env env' : CallEnv) (input : TransferConfirmation) (key : Ident) (intent : TransferIntent)
    (tx : Db) {tx' : Db}
    → find_intent input.token_hash input.sender_customer_id tx ≡ some intent
    → write_transfer env input intent tx ≡ tx'
    → find_replay input.sender_customer_id key tx' ≡ none
    → prepare env' (record input { key_hash = key }) tx' ≡ err (payments_error intent_expired)
unfolding prepare prepare_fresh
consumed_refused env env' input key intent tx found written unused =
    let late : (leb intent.expires_at env'.now || true || not (is_some intent.authorized_at))
        ≡ true =
      ground arith in
    rw
      (prepare, unused, sym written, intent_consumed env input intent tx found, prepare_fresh, late)
      refl

-- An intent pays at most once: a confirmation of an intent of which a transfer was made, under
-- a key that no transfer of the sender has, is refused with INTENT_EXPIRED.
pub intent_pays_once :
    (env env' : CallEnv) (input : TransferConfirmation) (key : Ident) (tx : Db) {p : Prepared}
    {tx' : Db}
    → prepare env input tx ≡ ok (p, tx')
    → p.replayed ≡ false
    → find_replay input.sender_customer_id key tx' ≡ none
    → prepare env' (record input { key_hash = key }) tx' ≡ err (payments_error intent_expired)
intent_pays_once env env' input key tx h new unused =
    let n = prepare-IsNew env input tx h new in
    consumed_refused env env' input key n.intent tx n.found n.fresh.written unused
