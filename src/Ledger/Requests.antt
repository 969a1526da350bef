-- ===== src/Ledger/Requests.antt =====
-- journal.service.ts: the requests of journals, their lines, the locked rows.
use aegis_shield_phase.Prelude.{ℕ, Bool, Option, List}
use aegis_shield_phase.Prelude.Int.{ℤ}
use aegis_shield_phase.Ledger.Schema.{
  Ident, Chars, LedgerAccountClass, PostingDirection, JournalEntryType, ActorType, ConstraintTarget,
}

-- A posting of `InternalJournalRequest`, its amount as a wire text.
pub record PostingRequest : Type 0 where
  pub ledger_account_id : Ident
  pub direction : PostingDirection
  pub amount_minor : Chars

pub record InternalJournalRequest : Type 0 where
  pub reference : Option Ident
  pub entry_type : JournalEntryType
  pub currency : Ident
  pub description : Option Ident
  pub idempotency_key : Ident
  pub postings : List PostingRequest
  pub effective_at : Option ℕ
  pub metadata : Option Ident

pub record JournalActor : Type 0 where
  pub actor_type : ActorType
  pub id : Chars

pub record Posting : Type 0 where
  pub ledger_account_id : Ident
  pub direction : PostingDirection
  pub amount_minor : ℤ

pub record LockedAccount : Type 0 where
  pub id : Ident
  pub currency : Ident
  pub account_class : LedgerAccountClass
  pub allow_negative_balance : Bool
  pub debit_total_minor : ℤ
  pub credit_total_minor : ℤ
  pub version : ℕ

-- What the run takes from outside: identifiers that the database and `randomUUID` choose, the
-- clock, and the name that a violated `journal_entries` constraint is reported by.
pub record PostEnv : Type 0 where
  pub entry_id : Ident
  pub posting_id : ℕ → Ident
  pub generated_reference : Ident
  pub now : ℕ
  pub reference_target : ConstraintTarget
