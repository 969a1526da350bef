-- ===== src/Resilience/Tests.antt =====
-- One drill from PLANNED to PASSED, and the theorems on it.
use aegis_shield_phase.Prelude.{ℕ, ◌+◌, ◌≡◌, refl, Option, none, some, List, [], ◌∷◌, err}
use aegis_shield_phase.Resilience.Schema.{
  DrillState, planned, running, backup_created, restore_verified, reconciliation_passed, passed,
  pass, Db, Env, Drill, AdvanceDrillInput, ReconciliationInput, unique_violation,
}
use aegis_shield_phase.Resilience.Drills.{
  create_drill, advance, advance_found, allowed, append_event, load, advanced_row,
  add_reconciliations, finish_advance, to_drill, bound_note,
}
use aegis_shield_phase.Resilience.Drills.Trail.{states_of}
use aegis_shield_phase.Resilience.Drills.Steps.{
  IsRecorded, advance-IsRecorded, create_drill-IsRecorded,
}
use aegis_shield_phase.Resilience.Drills.History.{
  IsReached, empty, opened, moved, reached-IsRecorded, reached-passed,
}
use aegis_shield_phase.Resilience.Drills.Torn.{advance_torn}

abbrev at_time : ℕ → Env
at_time n = record { now = n; row_id = 1; drill_id = 2; event_id = 100 + n }

abbrev to_state : DrillState → List ReconciliationInput → AdvanceDrillInput
to_state s items = record {
  drill_id = 2;
  state = s;
  note = none;
  backup_set_id = none;
  measured_recovery_point_age_seconds = none;
  measured_recovery_duration_ms = none;
  failure_code = none;
  reconciliations = items;
}

abbrev ledger_passes : ReconciliationInput
ledger_passes = record { service = 7; status = pass; issue_count = 0 }

abbrev start : Db
start = record { backup_sets = []; drills = []; events = []; reconciliations = [] }

abbrev drill_at : DrillState → Option ℕ → Drill
drill_at s done = record {
  id = 1;
  drill_id = 2;
  drill_type = 3;
  state = s;
  started_at = 0;
  completed_at = done;
  requested_by = 4;
  backup_set_id = none;
  measured_recovery_point_age_seconds = none;
  measured_recovery_duration_ms = none;
  failure_code = none;
  acknowledged_at = none;
  acknowledged_by = none;
  acknowledgement_reason = none;
}

abbrev late_drill : Drill
late_drill = record (drill_at planned none) { id = 6; drill_id = 3; started_at = 9 }

abbrev two_drills : Db
two_drills = record start { drills = drill_at planned none ∷ late_drill ∷ [] }

abbrev plan : Db
plan = (create_drill (at_time 0) 3 4 none start).1

abbrev run : Db
run = (advance (at_time 1) (to_state running []) plan).1

abbrev backup : Db
backup = (advance (at_time 2) (to_state backup_created []) run).1

abbrev restored : Db
restored = (advance (at_time 3) (to_state restore_verified []) backup).1

abbrev reconciled : Db
reconciled = (advance (at_time 4) (to_state reconciliation_passed (ledger_passes ∷ [])) restored).1

abbrev done : Db
done = (advance (at_time 5) (to_state passed []) reconciled).1

done-IsReached : IsReached done
unfolding advance advance_found allowed advanced_row add_reconciliations finish_advance append_event
    load to_drill create_drill bound_note
done-IsReached = moved (at_time 5) (to_state passed []) done _ refl (
    moved (at_time 4) (to_state reconciliation_passed (ledger_passes ∷ [])) reconciled _ refl (
      moved (at_time 3) (to_state restore_verified []) restored _ refl (
        moved (at_time 2) (to_state backup_created []) backup _ refl (
          moved (at_time 1) (to_state running []) run _ refl
            (opened (at_time 0) 3 4 none refl refl empty)))))

reached-IsRecorded_example : IsRecorded done
reached-IsRecorded_example = reached-IsRecorded done-IsReached

reached-passed_example :
    states_of 1 done.events
    ≡ planned ∷ running ∷ backup_created ∷ restore_verified ∷ reconciliation_passed ∷ passed ∷ []
unfolding advance advance_found allowed advanced_row add_reconciliations finish_advance append_event
    load to_drill create_drill bound_note
reached-passed_example =
    reached-passed 2 {drill = drill_at passed (some 5)} done-IsReached refl refl

advance-IsRecorded_example : IsRecorded run
unfolding advance advance_found allowed advanced_row add_reconciliations finish_advance append_event
    load to_drill create_drill bound_note
advance-IsRecorded_example =
    advance-IsRecorded (at_time 1) (to_state running []) plan run
      (create_drill-IsRecorded (at_time 0) 3 4 none start refl refl tt) refl

-- The drill has a reconciliation of the ledger already, and a second one comes with PASSED.
advance_torn_example :
    ((advance (at_time 5) (to_state passed (ledger_passes ∷ [])) reconciled).0
      ≡ err unique_violation)
    × (¬ IsRecorded (advance (at_time 5) (to_state passed (ledger_passes ∷ [])) reconciled).1)
unfolding advance advance_found allowed advanced_row add_reconciliations finish_advance append_event
    load to_drill create_drill bound_note
advance_torn_example =
    advance_torn (at_time 5) (to_state passed (ledger_passes ∷ [])) reconciled
      (drill_at reconciliation_passed none) ledger_passes [] (refl, tt) refl refl refl refl
