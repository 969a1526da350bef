-- ===== src/Resilience/Drills.antt =====
-- services/resilience/src/drills/drill.service.ts: the evidence of recovery drills.
-- The service runs no transaction: what an operation has written when it throws stays written.
-- Identifiers, instants and texts that are only stored are numbers; a note is its code units.
pub mod Trail
pub mod Steps
pub mod History
pub mod Torn
use aegis_shield_phase.Prelude.{
  ℕ, ◌+◌, Bool, true, false, not, ◌&&◌, ◌||◌, Option, none, some, List, [], ◌∷◌, ◌++◌, map, ltb,
  ◌==◌, if◌then◌else◌, length, find, filter, any, take, update_where, get_or, is_some, Result, ok,
  err, ◌>>=◌, or_throw,
}
use aegis_shield_phase.Resilience.Schema.{
  AdvanceDrillInput, BackupSet, CheckStatus, Db, Drill, DrillError, DrillEvent, DrillState, Env,
  Ident, Reconciliation, ReconciliationInput, RecordBackupSetInput, already_acknowledged,
  backup_created, cleaned_up, drill_not_failed, fail, failed, invalid_drill_transition, not_found,
  pass, passed, planned, reconciliation_passed, restore_verified, running, unique_violation,
}

-- `ALLOWED_TRANSITIONS[current].includes(next)`
unfoldable pub allowed : DrillState → DrillState → Bool
allowed planned running = true
allowed planned failed = true
allowed running backup_created = true
allowed running failed = true
allowed backup_created restore_verified = true
allowed backup_created failed = true
allowed restore_verified reconciliation_passed = true
allowed restore_verified failed = true
allowed reconciliation_passed passed = true
allowed reconciliation_passed failed = true
allowed passed cleaned_up = true
allowed failed cleaned_up = true
allowed _ _ = false

-- `toDrill`: a drill with its backup set and its reconciliations.
pub record RecoveryDrill : Type 0 where
  pub row : Drill
  pub backup_set : Option Ident
  pub reconciliations : List Reconciliation

abbrev pub drill_by_id : Ident → Db → Option Drill
drill_by_id drill_id db = find (λ (d : Drill). d.drill_id == drill_id) db.drills

abbrev pub backup_by_id : Ident → Db → Option BackupSet
backup_by_id id db = find (λ (b : BackupSet). b.backup_set_id == id) db.backup_sets

unfoldable pub to_drill : Drill → Db → RecoveryDrill
to_drill row db = record {
  row = row;
  backup_set = elim row.backup_set_id [
    | none ↦ none
    | some id ↦ elim (find (λ (b : BackupSet). b.id == id) db.backup_sets) [
      | none ↦ none
      | some b ↦ some b.backup_set_id
    ]
  ];
  reconciliations = filter (λ (r : Reconciliation). r.drill_row_id == row.id) db.reconciliations;
}

unfoldable pub load : Ident → Db → Result DrillError RecoveryDrill
unfolding to_drill
load drill_id db = do row ← or_throw (drill_by_id drill_id db) not_found; ok (to_drill row db)

unfoldable pub record_backup_set : Env → RecordBackupSetInput → Db → BackupSet × Db
record_backup_set env input db =
    let row : BackupSet = record {
      id = env.row_id;
      backup_set_id = input.backup_set_id;
      created_at = input.created_at;
      services = input.services;
      manifest_checksum = input.manifest_checksum;
      encryption_algorithm = input.encryption_algorithm;
      size_bytes = input.size_bytes;
      verified = false;
    } in
    elim (backup_by_id input.backup_set_id db) [
      | some existing ↦ (existing, db)
      | none ↦ (row, record db { backup_sets = db.backup_sets ++ row ∷ [] })
    ]

unfoldable pub mark_backup_verified : Ident → Db → Result DrillError BackupSet × Db
mark_backup_verified id db = elim (backup_by_id id db) [
  | none ↦ (err not_found, db)
  | some row ↦ (
    ok (record row { verified = true }),
    record db {
      backup_sets =
          update_where (λ (b : BackupSet). b.id == row.id) (λ b. record b { verified = true })
            db.backup_sets;
    },
  )
]

-- `note ? note.slice(0, 500) : null`; the empty note is falsy.
unfoldable pub bound_note : Option (List ℕ) → Option (List ℕ)
bound_note none = none
bound_note (some []) = none
bound_note (some (c ∷ cs)) = some (take 500 (c ∷ cs))

unfoldable pub append_event : Env → Ident → DrillState → Option (List ℕ) → Db → Db
unfolding bound_note
append_event env row_id state note db = record db {
  events =
      db.events
      ++ record {
        event_id = env.event_id;
        drill_row_id = row_id;
        state = state;
        occurred_at = env.now;
        note = bound_note note;
      }
        ∷ [];
}

unfoldable pub create_drill :
    Env → Ident → Ident → Option (List ℕ) → Db → Result DrillError RecoveryDrill × Db
unfolding append_event load
create_drill env drill_type requested_by note db =
    let row : Drill = record {
      id = env.row_id;
      drill_id = env.drill_id;
      drill_type = drill_type;
      state = planned;
      started_at = env.now;
      completed_at = none;
      requested_by = requested_by;
      backup_set_id = none;
      measured_recovery_point_age_seconds = none;
      measured_recovery_duration_ms = none;
      failure_code = none;
      acknowledged_at = none;
      acknowledged_by = none;
      acknowledgement_reason = none;
    } in
    let created =
      append_event env env.row_id planned note (record db { drills = db.drills ++ row ∷ [] }) in
    if is_some (drill_by_id env.drill_id db)
    then (err unique_violation, db)
    else (load env.drill_id created, created)

abbrev pub is_terminal : DrillState → Bool
is_terminal passed = true
is_terminal failed = true
is_terminal _ = false

abbrev pub is_failed : DrillState → Bool
is_failed failed = true
is_failed _ = false

-- The row of the backup set that the input names; an unknown name leaves the drill's own.
abbrev pub chosen_backup : AdvanceDrillInput → Drill → Db → Option Ident
chosen_backup input drill db = elim input.backup_set_id [
  | none ↦ drill.backup_set_id
  | some name ↦ elim (backup_by_id name db) [ none ↦ drill.backup_set_id | some b ↦ some b.id ]
]

-- The `data` of the update in `advance`.
unfoldable pub advanced_row : Env → AdvanceDrillInput → Drill → Option Ident → Drill → Drill
advanced_row env input drill backup row = record row {
  state = input.state;
  completed_at = if is_terminal input.state then some env.now else drill.completed_at;
  failure_code = if is_failed input.state then input.failure_code else none;
  measured_recovery_point_age_seconds = elim input.measured_recovery_point_age_seconds [
    | some n ↦ some n
    | none ↦ drill.measured_recovery_point_age_seconds
  ];
  measured_recovery_duration_ms = elim input.measured_recovery_duration_ms [
    | some n ↦ some n
    | none ↦ drill.measured_recovery_duration_ms
  ];
  backup_set_id = backup;
}

-- The loop over the reconciliations: a second result for a service of the drill throws, and the
-- rows before it stay.
unfoldable pub add_reconciliations :
    Env
    → Ident
    → List ReconciliationInput
    → List Reconciliation
    → Result DrillError (Unit {0}) × List Reconciliation
add_reconciliations env row_id [] rows = (ok tt, rows)
add_reconciliations env row_id (item ∷ items) rows =
    let rest = add_reconciliations env row_id items (
      rows
      ++ record {
        drill_row_id = row_id;
        service = item.service;
        status = item.status;
        issue_count = item.issue_count;
        checked_at = env.now;
      }
        ∷ []) in
    if any (λ (r : Reconciliation). r.drill_row_id == row_id && r.service == item.service) rows
    then (err unique_violation, rows)
    else rest

-- The end of `advance`: the event, unless the reconciliations threw.
unfoldable pub finish_advance :
    Env
    → AdvanceDrillInput
    → Drill
    → Db
    → Result DrillError (Unit {0}) × List Reconciliation
    → Result DrillError RecoveryDrill × Db
unfolding append_event load
finish_advance env input drill db (ok u, rows) =
    let after =
      append_event env drill.id input.state input.note (record db { reconciliations = rows }) in
    (load input.drill_id after, after)
finish_advance env input drill db (err e, rows) = (err e, record db { reconciliations = rows })

unfoldable pub advance_found :
    Env → AdvanceDrillInput → Drill → Db → Result DrillError RecoveryDrill × Db
unfolding allowed advanced_row add_reconciliations finish_advance
advance_found env input drill db =
    let moved = record db {
      drills =
          update_where (λ (d : Drill). d.id == drill.id)
            (advanced_row env input drill (chosen_backup input drill db)) db.drills;
    } in
    let done =
      finish_advance env input drill moved
        (add_reconciliations env drill.id input.reconciliations db.reconciliations) in
    if not (allowed drill.state input.state) then (err invalid_drill_transition, db) else done

unfoldable pub advance : Env → AdvanceDrillInput → Db → Result DrillError RecoveryDrill × Db
unfolding advance_found
advance env input db = elim (drill_by_id input.drill_id db) [
  | none ↦ (err not_found, db)
  | some drill ↦ advance_found env input drill db
]

-- The `data` of the update in `acknowledge`.
abbrev pub acknowledged : Env → Ident → Ident → Drill → Drill
acknowledged env operator_id reason d = record d {
  acknowledged_at = some env.now;
  acknowledged_by = some operator_id;
  acknowledgement_reason = some reason;
}

unfoldable pub acknowledge_found :
    Env → Drill → Ident → Ident → Ident → Db → Result DrillError RecoveryDrill × Db
unfolding load
acknowledge_found env drill drill_id operator_id reason db =
    let after = record db {
      drills =
          update_where (λ (d : Drill). d.id == drill.id) (acknowledged env operator_id reason)
            db.drills;
    } in
    if not (is_failed drill.state)
    then (err drill_not_failed, db)
    else if is_some drill.acknowledged_at
    then (err already_acknowledged, db)
    else (load drill_id after, after)

unfoldable pub acknowledge : Env → Ident → Ident → Ident → Db → Result DrillError RecoveryDrill × Db
unfolding acknowledge_found
acknowledge env drill_id operator_id reason db = elim (drill_by_id drill_id db) [
  | none ↦ (err not_found, db)
  | some drill ↦ acknowledge_found env drill drill_id operator_id reason db
]
