-- ===== src/Ledger/Schema.antt =====
-- The rows of the Ledger database (services/ledger/prisma/schema.prisma), the errors of
-- services/ledger/src/common/errors/ledger.error.ts and the results of journals.
-- Identifiers, hashes, texts that are stored but never read, and JSON metadata are numbers:
-- the code only compares them.
use aegis_shield_phase.Prelude.{ℕ, Bool, true, false, Option, List}
use aegis_shield_phase.Prelude.Int.{ℤ}

abbrev pub Ident : Type 0
Ident = ℕ

-- A wire text that the code reads, by its character codes.
abbrev pub Chars : Type 0
Chars = List ℕ

pub data LedgerAccountClass : Type 0 where
  asset liability equity revenue expense : LedgerAccountClass

pub data PostingDirection : Type 0 where
  debit credit : PostingDirection

pub data AccountStatus : Type 0 where
  active frozen closed : AccountStatus

pub data SystemAccountType : Type 0 where
  platform_settlement_asset customer_funds_liability_control agent_float : SystemAccountType

pub data JournalEntryType : Type 0 where
  account_adjustment settlement_funding internal_test : JournalEntryType
  customer_transfer qr_payment agent_cash_in agent_cash_out : JournalEntryType

pub data ActorType : Type 0 where
  service customer system : ActorType

pub data ErrorCode : Type 0 where
  invalid_request account_not_found account_not_active insufficient_funds : ErrorCode
  unbalanced_journal currency_mismatch idempotency_conflict idempotency_in_progress : ErrorCode
  self_transfer internal_error : ErrorCode

-- `LedgerError`, less the message.
pub record LedgerError : Type 0 where
  pub code : ErrorCode
  pub status : ℕ

-- The constraint that a unique violation names, as `isIdempotencyConflict` tells them apart.
pub data ConstraintTarget : Type 0 where
  customer_accounts_target journal_entries_target other_target : ConstraintTarget

-- What a call may throw: a `LedgerError`, Prisma's P2002, a `TypeError`, or Prisma's P2025.
pub data Failure : Type 0 where
  ledger_error : LedgerError → Failure
  unique_violation : ConstraintTarget → Failure
  type_error : Failure
  record_missing : Failure

abbrev pub account_not_found_error : Failure
account_not_found_error = ledger_error (record { code = account_not_found; status = 404 })

abbrev pub account_not_active_error : Failure
account_not_active_error = ledger_error (record { code = account_not_active; status = 409 })

abbrev pub insufficient_funds_error : Failure
insufficient_funds_error = ledger_error (record { code = insufficient_funds; status = 409 })

abbrev pub unbalanced_journal_error : Failure
unbalanced_journal_error = ledger_error (record { code = unbalanced_journal; status = 400 })

abbrev pub currency_mismatch_error : Failure
currency_mismatch_error = ledger_error (record { code = currency_mismatch; status = 400 })

abbrev pub idempotency_conflict_error : Failure
idempotency_conflict_error = ledger_error (record { code = idempotency_conflict; status = 409 })

abbrev pub idempotency_in_progress_error : Failure
idempotency_in_progress_error =
    ledger_error (record { code = idempotency_in_progress; status = 409 })

pub record BalanceProjection : Type 0 where
  pub debit_total_minor : ℤ
  pub credit_total_minor : ℤ
  pub version : ℕ

-- A ledger account joined with its balance projection, if it has one.
pub record LedgerAccount : Type 0 where
  pub id : Ident
  pub code : Ident
  pub currency : Ident
  pub account_class : LedgerAccountClass
  pub allow_negative_balance : Bool
  pub system_account_type : Option SystemAccountType
  pub balance_projection : Option BalanceProjection

pub record CustomerAccount : Type 0 where
  pub id : Ident
  pub customer_id : Ident
  pub public_reference : Ident
  pub masked_reference : Ident
  pub currency : Ident
  pub status : AccountStatus
  pub ledger_account_id : Ident

pub record JournalEntry : Type 0 where
  pub id : Ident
  pub reference : Ident
  pub entry_type : JournalEntryType
  pub currency : Ident
  pub description : Option Ident
  pub correlation_id : Ident
  pub effective_at : ℕ
  pub created_at : ℕ
  pub created_by_type : ActorType
  pub created_by_id : Chars
  pub metadata : Option Ident

pub record JournalPosting : Type 0 where
  pub id : Ident
  pub journal_entry_id : Ident
  pub ledger_account_id : Ident
  pub direction : PostingDirection
  pub amount_minor : ℤ
  pub currency : Ident
  pub sequence : ℕ
  pub created_at : ℕ

pub record PostingResult : Type 0 where
  pub id : Ident
  pub ledger_account_id : Ident
  pub direction : PostingDirection
  pub amount_minor : Chars
  pub sequence : ℕ

pub record JournalResult : Type 0 where
  pub id : Ident
  pub reference : Ident
  pub entry_type : JournalEntryType
  pub currency : Ident
  pub total_minor : Chars
  pub effective_at : ℕ
  pub created_at : ℕ
  pub postings : List PostingResult

pub data IdempotencyScope : Type 0 where
  default_customer_account journal_entry : IdempotencyScope

pub data IdempotencyStatus : Type 0 where
  in_progress completed : IdempotencyStatus

-- A stored response body: a journal's, or another caller's.
pub data StoredResponse : Type 0 where
  journal_response : JournalResult → StoredResponse
  other_response : Ident → StoredResponse

pub record IdempotencyRecord : Type 0 where
  pub scope : IdempotencyScope
  pub key_hash : Ident
  pub request_hash : Ident
  pub status : IdempotencyStatus
  pub response_body : Option StoredResponse
  pub expires_at : ℕ

-- The tables, each in the order of insertion.
pub record Db : Type 0 where
  pub ledger_accounts : List LedgerAccount
  pub customer_accounts : List CustomerAccount
  pub journal_entries : List JournalEntry
  pub journal_postings : List JournalPosting
  pub idempotency_records : List IdempotencyRecord

abbrev pub same_direction : PostingDirection → PostingDirection → Bool
same_direction debit debit = true
same_direction credit credit = true
same_direction _ _ = false

abbrev pub same_scope : IdempotencyScope → IdempotencyScope → Bool
same_scope default_customer_account default_customer_account = true
same_scope journal_entry journal_entry = true
same_scope _ _ = false

abbrev pub is_active : AccountStatus → Bool
is_active active = true
is_active _ = false
