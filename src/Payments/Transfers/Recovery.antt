-- ===== src/Payments/Transfers/Recovery.antt =====
-- transfers.service.ts `recover`: transfers that stay in PROCESSING are tried again, or reviewed.
use aegis_shield_phase.Prelude.{
  ℕ, suc, ◌+◌, ◌*◌, Bool, true, ◌&&◌, ◌||◌, Option, none, some, List, [], ◌∷◌, leb, ltb, ◌==◌,
  if◌then◌else◌, length, filter, find, take, Result, ok, err,
}
use aegis_shield_phase.Payments.Schema.{
  PaymentsFailure, Ident, processing, requires_review, recovery_retry, requires_review_event,
  TransferEvent, Transfer, Db,
}
use aegis_shield_phase.Payments.Calls.{CallEnv, event}
use aegis_shield_phase.Payments.Settlement.{update_transfer, settle}
use aegis_shield_phase.Payments.Transfers.{is_processing}

pub record RecoveryConfig : Type 0 where
  pub recovery_stale_seconds : ℕ
  pub max_processing_attempts : ℕ

abbrev pub is_due : CallEnv → Option ℕ → Bool
is_due env none = true
is_due env (some next) = leb next env.now

-- The `WHERE` of the query.
abbrev pub is_stale : RecoveryConfig → CallEnv → Transfer → Bool
is_stale cfg env t =
    is_processing t.status
    && ltb (t.updated_at + cfg.recovery_stale_seconds * 1000) env.now
    && is_due env t.next_attempt_at

-- `ORDER BY "updated_at", "id"`
abbrev pub is_before : Transfer → Transfer → Bool
is_before t u = ltb t.updated_at u.updated_at || (t.updated_at == u.updated_at && leb t.id u.id)

unfoldable pub insert_stale : Transfer → List Transfer → List Transfer
insert_stale t [] = t ∷ []
insert_stale t (u ∷ us) =
    let rest = insert_stale t us in if is_before t u then t ∷ u ∷ us else u ∷ rest

unfoldable pub sort_stale : List Transfer → List Transfer
unfolding insert_stale
sort_stale [] = []
sort_stale (t ∷ ts) = insert_stale t (sort_stale ts)

abbrev pub claim_limit : ℕ
claim_limit = 20

unfoldable pub selected : RecoveryConfig → CallEnv → Db → List Transfer
unfolding sort_stale
selected cfg env db = take claim_limit (sort_stale (filter (is_stale cfg env) db.transfers))

abbrev pub reviewed_row : CallEnv → ℕ → Transfer → Transfer
reviewed_row env attempts t = record t {
  status = requires_review;
  attempt_count = attempts;
  next_attempt_at = none;
  updated_at = env.now;
}

abbrev pub retried_row : RecoveryConfig → CallEnv → ℕ → Transfer → Transfer
retried_row cfg env attempts t = record t {
  attempt_count = attempts;
  next_attempt_at = some (env.now + cfg.recovery_stale_seconds * 1000);
  updated_at = env.now;
}

abbrev pub review_event : CallEnv → Ident → TransferEvent
review_event env id = record (event env id (some requires_review)) {
  event_type = requires_review_event;
  previous_status = some processing;
}

abbrev pub retry_event : CallEnv → Ident → TransferEvent
retry_event env id = record (event env id none) { event_type = recovery_retry }

-- One row of the loop: it goes to review, or is kept to be settled.
unfoldable pub claim_row : RecoveryConfig → CallEnv → Transfer → Db → Option Transfer × Db
claim_row cfg env current db =
    let attempts = suc current.attempt_count in
    let review =
      update_transfer current (reviewed_row env attempts) (review_event env current.id ∷ []) db in
    let retry =
      update_transfer current (retried_row cfg env attempts) (retry_event env current.id ∷ []) db in
    if leb cfg.max_processing_attempts attempts then (none, review.1) else (some retry.0, retry.1)

abbrev pub add_row : Option Transfer → List Transfer → List Transfer
add_row none rows = rows
add_row (some row) rows = row ∷ rows

-- `findUniqueOrThrow` reads a selected row again before it is claimed.
unfoldable pub claim_all : RecoveryConfig → CallEnv → List Transfer → Db → List Transfer × Db
unfolding claim_row
claim_all cfg env [] db = ([], db)
claim_all cfg env (t ∷ ts) db = elim (find (λ (u : Transfer). u.id == t.id) db.transfers) [
  | none ↦ ([], db)
  | some current ↦
      let one = claim_row cfg env current db in
      let rest = claim_all cfg env ts one.1 in (add_row one.0 rest.0, rest.1)
]

-- A settlement that throws ends the loop.
abbrev pub then_rest :
    {A : Type 0}
    → Result PaymentsFailure A × Db
    → Result PaymentsFailure (Unit {0}) × Db
    → Result PaymentsFailure (Unit {0}) × Db
then_rest (ok a, db) rest = rest
then_rest (err e, db) rest = (err e, db)

unfoldable pub settle_all : CallEnv → List Transfer → Db → Result PaymentsFailure (Unit {0}) × Db
unfolding settle
settle_all env [] db = (ok tt, db)
settle_all env (row ∷ rows) db =
    let one = settle env row db in let rest = settle_all env rows one.1 in then_rest one rest

abbrev pub processed : ℕ → Result PaymentsFailure (Unit {0}) × Db → Result PaymentsFailure ℕ × Db
processed n (ok _, db) = (ok n, db)
processed n (err e, db) = (err e, db)

unfoldable pub recover : RecoveryConfig → CallEnv → Db → Result PaymentsFailure ℕ × Db
unfolding selected claim_all settle_all
recover cfg env db =
    let claimed = claim_all cfg env (selected cfg env db) db in
    processed (length (selected cfg env db)) (settle_all env claimed.0 claimed.1)
