-- ===== src/Payments/Settlement.antt =====
-- transfers.service.ts `settle`: the Ledger's answer, written to the transfer.
use aegis_shield_phase.Prelude.{
  none, some, List, [], ◌∷◌, ◌++◌, ltb, ◌==◌, if◌then◌else◌, find, update_where, get_or, Result, ok,
  err,
}
use aegis_shield_phase.Payments.Schema.{
  Ident, processing, completed, failed, FailureCode, ledger_posted, completed_event, failed_event,
  PaymentsFailure, database_error, Transfer, TransferEvent, Db,
}
use aegis_shield_phase.Payments.Calls.{
  CallEnv, LedgerTransferResult, event, ledger_call_error, other_exception, safe_failure,
}

abbrev pub completed_row : CallEnv → LedgerTransferResult → Transfer → Transfer
completed_row env result t = record t {
  status = completed;
  ledger_journal_id = some result.journal_id;
  sender_posting_id = some result.sender_posting_id;
  recipient_posting_id = some result.recipient_posting_id;
  sender_balance_after_minor = some result.sender_balance_after;
  recipient_balance_after_minor = some result.recipient_balance_after;
  completed_at = some env.now;
  updated_at = env.now;
  next_attempt_at = none;
}

abbrev pub failed_row : CallEnv → FailureCode → Transfer → Transfer
failed_row env code t = record t {
  status = failed;
  failure_code = some (safe_failure code);
  failed_at = some env.now;
  updated_at = env.now;
  next_attempt_at = none;
}

-- The update of the row `id` with its events, and the row as it is then.
abbrev pub update_transfer :
    Transfer → (Transfer → Transfer) → List TransferEvent → Db → Transfer × Db
update_transfer row change events db =
    let transfers = update_where (λ (t : Transfer). t.id == row.id) change db.transfers in
    (
      get_or (find (λ (t : Transfer). t.id == row.id) transfers) row,
      record db { transfers = transfers; events = db.events ++ events },
    )

abbrev pub posted_event : CallEnv → Ident → TransferEvent
posted_event env id = record (event env id (some completed)) {
  event_type = ledger_posted;
  previous_status = some processing;
}

abbrev pub failure_event : CallEnv → Ident → FailureCode → TransferEvent
failure_event env id code = record (event env id (some failed)) {
  event_type = failed_event;
  previous_status = some processing;
  safe_code = some (safe_failure code);
}

abbrev pub returned : Transfer × Db → Result PaymentsFailure Transfer × Db
returned x = (ok x.0, x.1)

-- A thrown error at the update to COMPLETED is caught, and leaves the row as it was; one at the
-- update to FAILED is not caught. An answer below 500 fails the transfer; every other exception leaves it in PROCESSING.
unfoldable pub settle : CallEnv → Transfer → Db → Result PaymentsFailure Transfer × Db
settle env row db = elim (env.ledger_transfer row) [
  | ok result ↦
      if env.update_fails row
      then (ok row, db)
      else returned (
          update_transfer row (completed_row env result)
            (posted_event env row.id
              ∷ record (posted_event env row.id) { event_type = completed_event }
              ∷ [])
            db)
  | err failure ↦ elim failure [
    | ledger_call_error status code ↦
        if ltb status 500
        then if env.update_fails row
          then (err database_error, db)
          else returned
              (update_transfer row (failed_row env code) (failure_event env row.id code ∷ []) db)
        else (ok row, db)
    | other_exception ↦ (ok row, db)
  ]
]
