-- ===== src/Ledger/Transfer.antt =====
-- services/ledger/src/transfers/customer-transfer.service.ts: transfers between customers.
pub mod Laws
use aegis_shield_phase.Prelude.{
  ℕ, Bool, true, false, not, ◌&&◌, ◌||◌, Option, none, some, List, [], ◌∷◌, ◌==◌, if◌then◌else◌,
  find, Result, ok, err, ◌>>=◌, ◌>>◌, throw_if, or_throw,
}
use aegis_shield_phase.Prelude.Int.{ℤ, pos, ltb_ℤ, leb_ℤ}
use aegis_shield_phase.Ledger.Schema.{
  Ident, Chars, liability, PostingDirection, debit, credit, AccountStatus, customer_transfer,
  service, ErrorCode, Failure, ledger_error, record_missing, account_not_found, self_transfer,
  invalid_request, account_not_found_error, account_not_active_error, insufficient_funds_error,
  currency_mismatch_error, BalanceProjection, LedgerAccount, CustomerAccount, PostingResult,
  JournalResult, Db, is_active,
}
use aegis_shield_phase.Ledger.Money.{big_int, serialize_minor_units, signed_balance_minor}
use aegis_shield_phase.Ledger.Requests.{InternalJournalRequest, PostingRequest, JournalActor}
use aegis_shield_phase.Ledger.Journal.{account_by_id}
use aegis_shield_phase.Ledger.Post.{PostCall, post}

pub record TransferPreview : Type 0 where
  pub sender_customer_id : Ident
  pub source_account_id : Ident
  pub recipient_reference : Ident
  pub amount_minor : Chars
  pub currency : Ident

pub record TransferCommand : Type 0 where
  pub transfer_id : Ident
  pub transfer_reference : Ident
  pub sender_customer_id : Ident
  pub source_account_id : Ident
  pub recipient_reference : Ident
  pub amount_minor : Chars
  pub currency : Ident
  pub idempotency_key : Ident

pub record Money : Type 0 where
  pub currency : Ident
  pub minor_units : Chars

pub record TransferPreviewResult : Type 0 where
  pub source_account_id : Ident
  pub source_masked_reference : Ident
  pub source_balance : Money
  pub recipient_account_id : Ident
  pub recipient_customer_id : Ident
  pub recipient_masked_reference : Ident
  pub currency : Ident

pub record TransferResult : Type 0 where
  pub journal_id : Ident
  pub sender_posting_id : Ident
  pub recipient_posting_id : Ident
  pub sender_account_id : Ident
  pub recipient_account_id : Ident
  pub sender_masked_reference : Ident
  pub recipient_masked_reference : Ident
  pub sender_balance_after : Money
  pub recipient_balance_after : Money
  pub currency : Ident
  pub amount : Money
  pub posted_at : ℕ

abbrev pub recipient_unavailable_error : Failure
recipient_unavailable_error = ledger_error (record { code = account_not_found; status = 409 })

abbrev pub self_transfer_error : Failure
self_transfer_error = ledger_error (record { code = self_transfer; status = 409 })

abbrev pub invalid_request_error : Failure
invalid_request_error = ledger_error (record { code = invalid_request; status = 400 })

-- `findFirst` by the identifier and the owner.
abbrev pub owned_account : Ident → Ident → Db → Option CustomerAccount
owned_account id customer db =
    find (λ (a : CustomerAccount). a.id == id && a.customer_id == customer) db.customer_accounts

abbrev pub account_by_reference : Ident → Db → Option CustomerAccount
account_by_reference reference db =
    find (λ (a : CustomerAccount). a.public_reference == reference) db.customer_accounts

-- The guards on the two accounts once both are found.
pub check_parties :
    CustomerAccount → CustomerAccount → Ident → Result Failure (CustomerAccount × CustomerAccount)
check_parties source recipient currency = do
  throw_if (not (is_active source.status) || not (is_active recipient.status))
      account_not_active_error
  throw_if (source.id == recipient.id) self_transfer_error
  throw_if (not (source.currency == recipient.currency) || not (source.currency == currency))
      currency_mismatch_error
  ok (source, recipient)

-- The source and the recipient of a transfer, in this order.
unfoldable pub resolve :
    Ident → Ident → Ident → Ident → Db → Result Failure (CustomerAccount × CustomerAccount)
unfolding check_parties
resolve sender source_id reference currency db = do
  source ← or_throw (owned_account source_id sender db) account_not_found_error
  recipient ← or_throw (account_by_reference reference db) recipient_unavailable_error
  check_parties source recipient currency

-- The projection that the `include` joins.
abbrev pub projection_of : Ident → Db → Option (LedgerAccount × BalanceProjection)
projection_of id db = elim (account_by_id id db.ledger_accounts) [
  | none ↦ none
  | some a ↦ elim a.balance_projection [ none ↦ none | some p ↦ some (a, p) ]
]

unfoldable pub balance : CustomerAccount → Db → Result Failure ℤ
balance account db = do
  (a, p) ← or_throw (projection_of account.ledger_account_id db) account_not_found_error
  ok (signed_balance_minor a.account_class p.debit_total_minor p.credit_total_minor)

unfoldable pub preview : TransferPreview → Db → Result Failure TransferPreviewResult
unfolding resolve balance
preview input db = do
  (source, recipient) ←
      resolve input.sender_customer_id input.source_account_id input.recipient_reference
        input.currency db
  available ← balance source db
  ok (record {
    source_account_id = source.id;
    source_masked_reference = source.masked_reference;
    source_balance = record {
      currency = source.currency;
      minor_units = serialize_minor_units available;
    };
    recipient_account_id = recipient.id;
    recipient_customer_id = recipient.customer_id;
    recipient_masked_reference = recipient.masked_reference;
    currency = source.currency;
  })

-- The two lines of every movement between two ledger accounts.
abbrev pub two_lines : Ident → Ident → Chars → List PostingRequest
two_lines from to amount =
    record { ledger_account_id = from; direction = debit; amount_minor = amount }
    ∷ record { ledger_account_id = to; direction = credit; amount_minor = amount }
    ∷ []

-- What the texts `Customer transfer` and the metadata object stand for, and the service's name.
pub record TransferTexts : Type 0 where
  pub description : Ident
  pub metadata : Ident → Ident → Ident
  pub actor_id : Chars

abbrev pub transfer_request :
    TransferTexts → TransferCommand → CustomerAccount → CustomerAccount → InternalJournalRequest
transfer_request texts input source recipient = record {
  reference = some input.transfer_reference;
  entry_type = customer_transfer;
  currency = input.currency;
  description = some texts.description;
  idempotency_key = input.idempotency_key;
  postings = two_lines source.ledger_account_id recipient.ledger_account_id input.amount_minor;
  effective_at = none;
  metadata = some (texts.metadata input.transfer_id input.transfer_reference);
}

abbrev pub payments_actor : TransferTexts → JournalActor
payments_actor texts = record { actor_type = service; id = texts.actor_id }

abbrev pub posting_of : Ident → JournalResult → Option PostingResult
posting_of id journal = find (λ (p : PostingResult). p.ledger_account_id == id) journal.postings

-- The balance after the journal, read with the class `LIABILITY`.
abbrev pub balance_after : Ident → Ident → Db → Result Failure Money
balance_after currency id db = do
  (a, p) ← or_throw (projection_of id db) record_missing
  ok (record {
    currency = currency;
    minor_units =
        serialize_minor_units
          (signed_balance_minor liability p.debit_total_minor p.credit_total_minor);
  })

-- What is read and returned once the journal is posted.
pub transfer_result :
    TransferCommand
    → CustomerAccount
    → CustomerAccount
    → JournalResult
    → Db
    → Result Failure TransferResult
transfer_result input source recipient journal db = do
  sender ← or_throw (posting_of source.ledger_account_id journal) account_not_found_error
  receiver ← or_throw (posting_of recipient.ledger_account_id journal) account_not_found_error
  source_after ← balance_after source.currency source.ledger_account_id db
  recipient_after ← balance_after recipient.currency recipient.ledger_account_id db
  ok (record {
    journal_id = journal.id;
    sender_posting_id = sender.id;
    recipient_posting_id = receiver.id;
    sender_account_id = source.id;
    recipient_account_id = recipient.id;
    sender_masked_reference = source.masked_reference;
    recipient_masked_reference = recipient.masked_reference;
    sender_balance_after = source_after;
    recipient_balance_after = recipient_after;
    currency = input.currency;
    amount = record { currency = input.currency; minor_units = input.amount_minor };
    posted_at = journal.created_at;
  })

-- The checks that come before the journal.
pub admit_transfer : TransferCommand → Db → Result Failure (CustomerAccount × CustomerAccount)
unfolding resolve balance
admit_transfer input db = do
  (source, recipient) ←
      resolve input.sender_customer_id input.source_account_id input.recipient_reference
        input.currency db
  throw_if (leb_ℤ (big_int input.amount_minor) (pos 0)) invalid_request_error
  available ← balance source db
  throw_if (ltb_ℤ available (big_int input.amount_minor)) insufficient_funds_error
  ok (source, recipient)

pub after_journal :
    TransferCommand
    → CustomerAccount × CustomerAccount
    → Result Failure JournalResult × Db
    → Result Failure TransferResult × Db
unfolding transfer_result
after_journal input parties (ok journal, db) =
    (transfer_result input parties.0 parties.1 journal db, db)
after_journal input parties (err e, db) = (err e, db)

unfoldable pub transfer :
    PostCall → TransferTexts → TransferCommand → Ident → Db → Result Failure TransferResult × Db
unfolding admit_transfer after_journal post
transfer call texts input correlation_id db = elim (admit_transfer input db) [
  | err e ↦ (err e, db)
  | ok parties ↦ after_journal input parties (
      post call (transfer_request texts input parties.0 parties.1) correlation_id
        (payments_actor texts) db)
]
