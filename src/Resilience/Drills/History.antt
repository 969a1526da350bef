-- ===== src/Resilience/Drills/History.antt =====
-- drill.service.ts: the databases that its operations reach, and the history of a passed drill.
use aegis_shield_phase.Prelude.{
  ℕ, ◌≡◌, false, Option, some, List, [], ◌∷◌, arith, ◌==◌, any, find-All, ok,
}
use aegis_shield_phase.Resilience.Schema.{
  Ident, planned, running, backup_created, restore_verified, reconciliation_passed, passed, Drill,
  Db, Env, AdvanceDrillInput, RecordBackupSetInput,
}
use aegis_shield_phase.Resilience.Drills.{
  RecoveryDrill, drill_by_id, advance, create_drill, acknowledge, record_backup_set,
  mark_backup_verified,
}
use aegis_shield_phase.Resilience.Drills.Trail.{states_of, trail-passed}
use aegis_shield_phase.Resilience.Drills.Steps.{
  IsTold, IsRecorded, advance-IsRecorded, create_drill-IsRecorded, acknowledge-IsRecorded,
}

-- The databases that the operations reach when every `advance` that they run returns.
pub data IsReached : Db → Type 0 where
  empty : IsReached (record { backup_sets = []; drills = []; events = []; reconciliations = [] })
  opened :
      {db : Db} (env : Env) (drill_type requested_by : Ident) (note : Option (List ℕ))
      → any (λ (d : Drill). d.id == env.row_id) db.drills ≡ false
      → states_of env.row_id db.events ≡ []
      → IsReached db
      → IsReached (create_drill env drill_type requested_by note db).1
  moved :
      {db : Db} (env : Env) (input : AdvanceDrillInput) (after : Db) (r : RecoveryDrill)
      → advance env input db ≡ (ok r, after)
      → IsReached db
      → IsReached after
  reviewed :
      {db : Db} (env : Env) (drill_id operator_id reason : Ident)
      → IsReached db
      → IsReached (acknowledge env drill_id operator_id reason db).1
  stored :
      {db : Db} (env : Env) (input : RecordBackupSetInput)
      → IsReached db
      → IsReached (record_backup_set env input db).1
  verified : {db : Db} (id : Ident) → IsReached db → IsReached (mark_backup_verified id db).1

record_backup_set-IsRecorded :
    (env : Env) (input : RecordBackupSetInput) (db : Db)
    → IsRecorded db
    → IsRecorded (record_backup_set env input db).1
unfolding record_backup_set
record_backup_set-IsRecorded env input db h = ground arith

mark_backup_verified-IsRecorded :
    (id : Ident) (db : Db) → IsRecorded db → IsRecorded (mark_backup_verified id db).1
unfolding mark_backup_verified
mark_backup_verified-IsRecorded id db h = ground arith

-- In every database that the operations reach with each `advance` returning, each drill's events
-- are a walk along the allowed transitions that ends in its state.
pub reached-IsRecorded : {db : Db} → IsReached db → IsRecorded db
reached-IsRecorded empty = tt
reached-IsRecorded (opened {db} env t b note fresh unused from) =
    create_drill-IsRecorded env t b note db fresh unused (reached-IsRecorded from)
reached-IsRecorded (moved {db} env input after r ran from) =
    advance-IsRecorded env input db after (reached-IsRecorded from) ran
reached-IsRecorded (reviewed {db} env drill_id operator_id reason from) =
    acknowledge-IsRecorded env drill_id operator_id reason db (reached-IsRecorded from)
reached-IsRecorded (stored {db} env input from) =
    record_backup_set-IsRecorded env input db (reached-IsRecorded from)
reached-IsRecorded (verified {db} id from) =
    mark_backup_verified-IsRecorded id db (reached-IsRecorded from)

-- In every database that the operations reach with each `advance` returning, a drill in PASSED has
-- exactly the events PLANNED, RUNNING, BACKUP_CREATED, RESTORE_VERIFIED, RECONCILIATION_PASSED, PASSED, in this order.
pub reached-passed :
    {db : Db} (drill_id : Ident) {drill : Drill}
    → IsReached db
    → drill_by_id drill_id db ≡ some drill
    → drill.state ≡ passed
    → states_of drill.id db.events
      ≡ planned ∷ running ∷ backup_created ∷ restore_verified ∷ reconciliation_passed ∷ passed ∷ []
reached-passed {db} drill_id {drill} reached found done =
    let told =
      find-All (IsTold db.events) (λ (d : Drill). d.drill_id == drill_id) db.drills
        (reached-IsRecorded reached) found in
    trail-passed (states_of drill.id db.events) (rw done at told)
