-- ===== src/Payments/Tests.antt =====
-- One confirmed transfer, and the theorems on it.
use aegis_shield_phase.Prelude.{
  ◌+◌, ◌≡◌, All, List, refl, true, false, none, some, [], ◌∷◌, arith, ok, err,
}
use aegis_shield_phase.Prelude.Int.{pos, ◌+ℤ◌, ◌≤ℤ◌}
use aegis_shield_phase.Payments.Schema.{
  completed, requires_review, ledger_unavailable, limit_exceeded, Transfer, TransferEvent,
  intent_expired, payments_error, schema_error, TransferIntent, Db,
}
use aegis_shield_phase.Payments.Calls.{CallEnv, other_exception, TransferConfirmation}
use aegis_shield_phase.Payments.Settlement.{settle}
use aegis_shield_phase.Payments.Transfers.{
  Prepared, reserved_sum, new_transfer, write_transfer, prepare, prepare_fresh, confirm,
  settle_prepared,
}
use aegis_shield_phase.Payments.Transfers.Laws.{prepare_within_limit, intent_pays_once}
use aegis_shield_phase.Payments.Transfers.Replay.{confirm_sent_again}
use aegis_shield_phase.Payments.Transfers.Views.{
  detail_of, as_detail, accepts_detail, sent, as_summary, TransferListQuery, ListTexts, listed_rows,
  sort_transfers, insert_transfer, list_transfers,
}
use aegis_shield_phase.Payments.Transfers.Intents.{IntentEnv, IntentRequest, create_intent}
use aegis_shield_phase.Payments.Transfers.Recovery.{RecoveryConfig, recover}
use aegis_shield_phase.Payments.Transfers.Attempts.{IsWithinAttempts, recover-IsWithinAttempts}
use aegis_shield_phase.Payments.Transfers.Review.{lone, recover_all, recover_all-reviewed}

abbrev intent : TransferIntent
intent = record {
  id = 1;
  token_hash = 50;
  sender_customer_id = 71;
  source_account_id = 11;
  recipient_public_reference = 82;
  source_masked_reference = 91;
  recipient_masked_reference = 92;
  recipient_customer_id = 72;
  recipient_account_id = 12;
  currency = 1;
  amount_minor = pos 250;
  source_balance_snapshot_minor = pos 400;
  expires_at = 500;
  authorized_at = some 30;
  consumed_at = none;
}

abbrev tables : Db
tables = record { intents = intent ∷ []; transfers = []; events = [] }

abbrev env : CallEnv
env = record {
  formats = record { is_display_reference = λ t. true; is_masked_reference = λ t. true };
  update_fails = λ t. false;
  now = 40;
  day_start = 10;
  daily_outgoing_limit_minor = pos 1000;
  canonical_hash = λ p. p.intent_id + p.currency;
  transfer_id = 900;
  display_reference = 901;
  correlation_id = 902;
  enforce = λ i. ok tt;
  ledger_transfer = λ t. ok (record {
    journal_id = 500;
    sender_posting_id = 600;
    recipient_posting_id = 601;
    sender_balance_after = pos 150;
    recipient_balance_after = pos 250;
  });
  before_transaction = λ d. d;
}

abbrev input : TransferConfirmation
input = record { sender_customer_id = 71; key_hash = 60; token_hash = 50 }

abbrev made : Prepared
made = record { row = new_transfer env input intent; replayed = false }

abbrev after : Db
after = write_transfer env input intent tables

prepared : prepare env input tables ≡ ok (made, after)
unfolding prepare prepare_fresh reserved_sum ◌+ℤ◌
prepared = refl

abbrev settled_row : Transfer
settled_row = record (new_transfer env input intent) {
  status = completed;
  ledger_journal_id = some 500;
  sender_posting_id = some 600;
  recipient_posting_id = some 601;
  sender_balance_after_minor = some (pos 150);
  recipient_balance_after_minor = some (pos 250);
  completed_at = some 40;
}

prepare_within_limit_example : reserved_sum env 71 after.transfers ≤ℤ pos 1000
prepare_within_limit_example = prepare_within_limit env input tables (omega arith) prepared refl

abbrev settled_tables : Db
settled_tables = (confirm env input tables).1

confirmed : confirm env input tables ≡ (ok (detail_of settled_row 71), settled_tables)
unfolding confirm settle settle_prepared prepare prepare_fresh as_detail accepts_detail reserved_sum
    ◌+ℤ◌
confirmed = refl

confirm_sent_again_example :
    confirm (record env { now = 700 }) input settled_tables
    ≡ (ok (detail_of settled_row 71), settled_tables)
confirm_sent_again_example =
    confirm_sent_again env (record env { now = 700 }) input tables {d = detail_of settled_row 71}
      {after = settled_tables} (λ p. refl) refl refl refl confirmed

-- A view that the schema refuses is an error, after everything was written.
abbrev strange : CallEnv
strange = record env {
  formats = record { is_display_reference = λ t. true; is_masked_reference = λ t. false };
}

refused_view : confirm strange input tables ≡ (err schema_error, settled_tables)
unfolding confirm settle settle_prepared prepare prepare_fresh as_detail accepts_detail reserved_sum
    ◌+ℤ◌
refused_view = refl

intent_pays_once_example :
    prepare env (record input { key_hash = 61 }) after ≡ err (payments_error intent_expired)
intent_pays_once_example = intent_pays_once env env input 61 tables prepared refl refl

abbrev silent : CallEnv
silent = record env { now = 4000; ledger_transfer = λ t. err other_exception }

abbrev later : CallEnv
later = record silent { now = 8000 }

abbrev recovery : RecoveryConfig
recovery = record { recovery_stale_seconds = 2; max_processing_attempts = 2 }

recover-IsWithinAttempts_example :
    All (IsWithinAttempts 2) (recover recovery silent after).1.transfers
recover-IsWithinAttempts_example = recover-IsWithinAttempts recovery silent after (refl, tt)

recover_all-reviewed_example :
    (es : List TransferEvent) × (u : Transfer) × (recover_all recovery
        (silent ∷ later ∷ [])
        (lone [] [] made.row)
      ≡ lone [] es u)
    × (u.status ≡ requires_review)
recover_all-reviewed_example =
    recover_all-reviewed recovery (silent ∷ later ∷ []) [] [] made.row refl (omega arith)
      (omega arith, (omega arith, tt)) (λ row. refl, (λ row. refl, tt)) (omega arith) (omega arith)

abbrev query : TransferListQuery
query = record {
  direction = some sent;
  status = none;
  date_from = some 10;
  date_to = none;
  cursor = none;
  page_size = 1;
}

abbrev list_texts : ListTexts
list_texts = record {
  filter_text = λ q. 1;
  parse_cursor = λ text. none;
  encode_cursor = λ c. c.id;
  is_identifier = λ id. true;
}

-- The sender lists the transfer as sent; the recipient has sent none.
lists :
    (list_transfers list_texts 71 query after
      ≡ ok (record { transfers = as_summary made.row 71 ∷ []; next_cursor = none }))
    × (list_transfers list_texts 72 query after
        ≡ ok (record { transfers = []; next_cursor = none }))
unfolding list_transfers listed_rows sort_transfers insert_transfer
lists = (refl, refl)

abbrev intent_env : IntentEnv
intent_env = record {
  now = 5;
  policy = record { minimum = pos 100; maximum = pos 500; daily_outgoing_maximum = pos 1000 };
  intent_ttl_seconds = 300;
  token = 51;
  sha256 = λ text. text;
  new_id = 2;
  refused = payments_error ledger_unavailable;
  ledger_preview = λ r. ok (record {
    source_account_id = 11;
    recipient_account_id = 12;
    recipient_customer_id = 72;
    source_masked_reference = 91;
    recipient_masked_reference = 92;
    currency = 1;
    source_balance = pos 400;
  });
}

abbrev asked : IntentRequest
asked = record {
  sender_customer_id = 71;
  source_account_id = 11;
  recipient_reference = 82;
  amount_minor = pos 600;
}

above_maximum : create_intent intent_env asked tables ≡ err (payments_error limit_exceeded)
unfolding create_intent
above_maximum = refl
