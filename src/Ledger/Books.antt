-- ===== src/Ledger/Books.antt =====
-- A small set of books, the environment of a call and requests: the data of the tests.
use aegis_shield_phase.Prelude.{ℕ, ◌+◌, true, false, none, some, List, [], ◌∷◌, ok, err, length}
use aegis_shield_phase.Prelude.Int.{pos}
use aegis_shield_phase.Ledger.Schema.{
  Chars, asset, liability, debit, credit, active, agent_float, service, customer_transfer,
  default_customer_account, journal_entries_target, LedgerAccount, CustomerAccount, JournalPosting,
  IdempotencyRecord, Db, journal_response, other_response, type_error, completed,
}
use aegis_shield_phase.Ledger.Requests.{Posting, InternalJournalRequest, JournalActor}
use aegis_shield_phase.Ledger.Idempotency.{ExecuteEnv, ExecuteOptions}
use aegis_shield_phase.Ledger.Post.{PostCall}
use aegis_shield_phase.Ledger.Transfer.{TransferTexts, TransferCommand, two_lines}
use aegis_shield_phase.Ledger.Channel.{QrPaymentInput, AgentCashInput}

abbrev pub codes_250 : Chars
codes_250 = b'2' ∷ b'5' ∷ b'0' ∷ []

abbrev pub alice : LedgerAccount
alice = record {
  id = 11;
  code = 211;
  currency = 1;
  account_class = liability;
  allow_negative_balance = false;
  system_account_type = none;
  balance_projection =
      some (record { debit_total_minor = pos 0; credit_total_minor = pos 400; version = 1 });
}

abbrev pub bob : LedgerAccount
bob = record alice {
  id = 12;
  code = 212;
  balance_projection =
      some (record { debit_total_minor = pos 0; credit_total_minor = pos 0; version = 0 });
}

abbrev pub float : LedgerAccount
float = record {
  id = 13;
  code = 213;
  currency = 1;
  account_class = asset;
  allow_negative_balance = true;
  system_account_type = some agent_float;
  balance_projection =
      some (record { debit_total_minor = pos 400; credit_total_minor = pos 0; version = 1 });
}

abbrev pub opening : List JournalPosting
opening =
    record {
      id = 901;
      journal_entry_id = 900;
      ledger_account_id = 13;
      direction = debit;
      amount_minor = pos 400;
      currency = 1;
      sequence = 0;
      created_at = 20;
    }
    ∷ record {
      id = 902;
      journal_entry_id = 900;
      ledger_account_id = 11;
      direction = credit;
      amount_minor = pos 400;
      currency = 1;
      sequence = 1;
      created_at = 20;
    }
    ∷ []

abbrev pub customer : ℕ → ℕ → CustomerAccount
customer n ledger_id = record {
  id = n;
  customer_id = 70 + n;
  public_reference = 80 + n;
  masked_reference = 90 + n;
  currency = 1;
  status = active;
  ledger_account_id = ledger_id;
}

abbrev pub books : Db
books = record {
  ledger_accounts = alice ∷ bob ∷ float ∷ [];
  customer_accounts = customer 1 11 ∷ customer 2 12 ∷ [];
  journal_entries = [];
  journal_postings = opening;
  idempotency_records = [];
}

abbrev pub call : PostCall
call = record {
  sha256 = λ k. k + 1000;
  canonical_request_hash = λ p. length p.postings;
  post_env = record {
    entry_id = 500;
    posting_id = λ n. 600 + n;
    generated_reference = 700;
    now = 42;
    reference_target = journal_entries_target;
  };
  execute_env = record {
    now = 42;
    retention_hours = 24;
    before_transaction = λ d. d;
    before_replay = λ d. d;
  };
}

abbrev pub texts : TransferTexts
texts = record { description = 3; metadata = λ a b. a + b; actor_id = b'p' ∷ [] }

abbrev pub command : TransferCommand
command = record {
  transfer_id = 7;
  transfer_reference = 8;
  sender_customer_id = 71;
  source_account_id = 1;
  recipient_reference = 82;
  amount_minor = codes_250;
  currency = 1;
  idempotency_key = 9;
}

abbrev pub request : InternalJournalRequest
request = record {
  reference = none;
  entry_type = customer_transfer;
  currency = 1;
  description = none;
  idempotency_key = 9;
  postings = two_lines 11 12 codes_250;
  effective_at = none;
  metadata = none;
}

abbrev pub actor : JournalActor
actor = record { actor_type = service; id = b'p' ∷ [] }

abbrev pub lines : List Posting
lines =
    record { ledger_account_id = 11; direction = debit; amount_minor = pos 250 }
    ∷ record { ledger_account_id = 12; direction = credit; amount_minor = pos 250 }
    ∷ []

abbrev pub qr : QrPaymentInput
qr = record {
  source_account_id = 1;
  recipient_account_id = 2;
  currency = 1;
  amount_minor = codes_250;
  transfer_reference = 8;
  transfer_id = 7;
  idempotency_key = 9;
}

abbrev pub cash : AgentCashInput
cash = record {
  customer_account_id = 1;
  currency = 1;
  amount_minor = codes_250;
  operation_reference = 8;
  operation_id = 7;
  agent_id = 5;
  idempotency_key = 9;
}

-- An idempotent call whose work returns 7 and writes nothing.
abbrev pub seven : ExecuteOptions ℕ
seven = record {
  scope = default_customer_account;
  key_hash = 33;
  request_hash = 44;
  run = λ d. ok (7, d);
  encode = other_response;
  decode = λ r. elim r [ journal_response j ↦ err type_error | other_response n ↦ ok n ];
}

-- The record of an earlier call with the same key.
abbrev pub earlier : ℕ → IdempotencyRecord
earlier hash = record {
  scope = default_customer_account;
  key_hash = 33;
  request_hash = hash;
  status = completed;
  response_body = some (other_response 7);
  expires_at = 99;
}

abbrev pub with_record : ℕ → Db
with_record hash = record books { idempotency_records = earlier hash ∷ [] }

-- Another session commits the record while the call waits for its transaction.
abbrev pub race_env : ExecuteEnv
race_env = record {
  now = 42;
  retention_hours = 24;
  before_transaction = λ d. with_record 44;
  before_replay = λ d. d;
}
