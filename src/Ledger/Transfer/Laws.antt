-- ===== src/Ledger/Transfer/Laws.antt =====
-- customer-transfer.service.ts: the parties of a transfer, its balance check, the books after it.
use aegis_shield_phase.Prelude.{
  ◌≡◌, ◌≢◌, sym, ◌∙◌, ap, ◌&&◌, some, inl, inr, arith, ◌==◌, find_sound, Result-cases, ok, throw_if,
  or_throw, >>=-eq-ok,
}
use aegis_shield_phase.Prelude.Int.{ℤ, pos, ◌≤ℤ◌, ltb_ℤ, leb_ℤ}
use aegis_shield_phase.Ledger.Schema.{
  Ident, active, CustomerAccount, Db, account_not_found_error, insufficient_funds_error,
}
use aegis_shield_phase.Ledger.Money.{big_int}
use aegis_shield_phase.Ledger.Post.{PostCall}
use aegis_shield_phase.Ledger.Transfer.{
  TransferCommand, TransferResult, TransferTexts, owned_account, check_parties,
  account_by_reference, resolve, balance, admit_transfer, transfer, recipient_unavailable_error,
  invalid_request_error,
}

-- Who the parties of an admitted transfer are.
pub record MayTransfer (sender source_id reference currency : Ident) (db : Db)
    (source recipient : CustomerAccount) : Type 0 where
  pub source_found : owned_account source_id sender db ≡ some source
  pub recipient_found : account_by_reference reference db ≡ some recipient
  pub owned : source.customer_id ≡ sender
  pub named : source.id ≡ source_id
  pub referenced : recipient.public_reference ≡ reference
  pub source_active : source.status ≡ active
  pub recipient_active : recipient.status ≡ active
  pub distinct : source.id ≢ recipient.id
  pub source_currency : source.currency ≡ currency
  pub recipient_currency : recipient.currency ≡ currency

check_parties_sound :
    (s r : CustomerAccount) (currency : Ident) {source recipient : CustomerAccount}
    → check_parties s r currency ≡ ok (source, recipient)
    → (source ≡ s)
      × (recipient ≡ r)
      × (s.status ≡ active)
      × (r.status ≡ active)
      × (s.id ≢ r.id)
      × (s.currency ≡ currency)
      × (r.currency ≡ currency)
unfolding check_parties
check_parties_sound s r currency h = ground arith

-- `resolve` accepts only a source that the sender owns and another, active account in the currency.
pub resolve_sound :
    (sender source_id reference currency : Ident) (db : Db) {source recipient : CustomerAccount}
    → resolve sender source_id reference currency db ≡ ok (source, recipient)
    → MayTransfer sender source_id reference currency db source recipient
unfolding resolve
resolve_sound sender source_id reference currency db {source} {recipient} h =
    let (s, mine, h1) =
      >>=-eq-ok (or_throw (owned_account source_id sender db) account_not_found_error) _ h in
    let (r, known, h2) =
      >>=-eq-ok (or_throw (account_by_reference reference db) recipient_unavailable_error) _ h1 in
    let (same, same', a, b, ne, c, d) = check_parties_sound s r currency h2 in
    let mine' : owned_account source_id sender db ≡ some source = ground arith in
    let known' : account_by_reference reference db ≡ some recipient = ground arith in
    let owner =
      find_sound (λ (x : CustomerAccount). x.id == source_id && x.customer_id == sender)
        db.customer_accounts mine' in
    let referenced =
      find_sound (λ (x : CustomerAccount). x.public_reference == reference) db.customer_accounts
        known' in
    record {
      source_found = mine';
      recipient_found = known';
      owned = ground arith;
      named = ground arith;
      referenced = ground arith;
      source_active = ap (λ (x : CustomerAccount). x.status) same ∙ a;
      recipient_active = ap (λ (x : CustomerAccount). x.status) same' ∙ b;
      distinct = rw (same, same') ne;
      source_currency = ap (λ (x : CustomerAccount). x.currency) same ∙ c;
      recipient_currency = ap (λ (x : CustomerAccount). x.currency) same' ∙ d;
    }

-- The checks before the journal: the parties, an amount above zero, and a balance that covers it.
admit_transfer_sound :
    (input : TransferCommand) (db : Db) {source recipient : CustomerAccount}
    → admit_transfer input db ≡ ok (source, recipient)
    → MayTransfer input.sender_customer_id input.source_account_id input.recipient_reference
        input.currency db source recipient
      × (pos 1 ≤ℤ big_int input.amount_minor)
      × ((b : ℤ) × (balance source db ≡ ok b) × (big_int input.amount_minor ≤ℤ b))
unfolding admit_transfer
admit_transfer_sound input db {source} {recipient} h =
    let (parties, found, h1) =
      >>=-eq-ok
        (resolve input.sender_customer_id input.source_account_id input.recipient_reference
          input.currency db)
        _ h in
    let (_, positive, h2) =
      >>=-eq-ok (throw_if (leb_ℤ (big_int input.amount_minor) (pos 0)) invalid_request_error) _
        h1 in
    let (b, available, h3) = >>=-eq-ok (balance parties.0 db) _ h2 in
    let (_, covered, h4) =
      >>=-eq-ok (throw_if (ltb_ℤ b (big_int input.amount_minor)) insufficient_funds_error) _ h3 in
    let same : parties ≡ (source, recipient) = ground arith in
    (
      resolve_sound input.sender_customer_id input.source_account_id input.recipient_reference
          input.currency db (found ∙ ap ok same),
      ground arith,
      (
        b,
        ap (λ (z : CustomerAccount × CustomerAccount). balance z.0 db) (sym same) ∙ available,
        ground arith,
      ),
    )

module _ (call : PostCall) (texts : TransferTexts) (input : TransferCommand)
    (correlation_id : Ident) (db : Db) where
  -- A transfer that returns had a source that the sender owns and another account as recipient, both
  -- active and in the transfer's currency, and an amount above zero within the source's balance
  -- when the call began.
  pub transfer_admitted :
      {r : TransferResult} {db' : Db}
      → transfer call texts input correlation_id db ≡ (ok r, db')
      → (source recipient : CustomerAccount) × MayTransfer input.sender_customer_id
          input.source_account_id input.recipient_reference input.currency db source recipient
        × (pos 1 ≤ℤ big_int input.amount_minor)
        × ((b : ℤ) × (balance source db ≡ ok b) × (big_int input.amount_minor ≤ℤ b))
  unfolding transfer
  transfer_admitted h = elim (Result-cases (admit_transfer input db)) [
    | inr (e, refused) ↦ absurd (ground arith)
    | inl ((source, recipient), admitted) ↦
        let (may, positive, covered) = admit_transfer_sound input db admitted in
        (source, recipient, may, positive, covered)
  ]
