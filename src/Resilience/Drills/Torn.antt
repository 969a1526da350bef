-- ===== src/Resilience/Drills/Torn.antt =====
-- drill.service.ts `advance`: what is left when a reconciliation is refused after the drill's row
-- was written.
use aegis_shield_phase.Prelude.{
  ◌≡◌, refl, ◌∙◌, sym, true, false, some, List, All, ◌∷◌, arith, ◌==◌, ◌&&◌, find, any,
  update_where, find-All, find_updated, ==_refl, err,
}
use aegis_shield_phase.Resilience.Schema.{
  Ident, DrillState, planned, running, backup_created, restore_verified, reconciliation_passed,
  passed, failed, cleaned_up, DrillEvent, unique_violation, Drill, Reconciliation,
  ReconciliationInput, Db, Env, AdvanceDrillInput,
}
use aegis_shield_phase.Resilience.Drills.{
  allowed, drill_by_id, chosen_backup, advanced_row, add_reconciliations, finish_advance,
  advance_found, advance,
}
use aegis_shield_phase.Resilience.Drills.Steps.{IsTold, IsRecorded}

moves_on : (s : DrillState) → allowed s s ≡ false
unfolding allowed
moves_on planned = refl
moves_on running = refl
moves_on backup_created = refl
moves_on restore_verified = refl
moves_on reconciliation_passed = refl
moves_on passed = refl
moves_on failed = refl
moves_on cleaned_up = refl

-- A drill that `f` brings to another state, with the events as they were, is not told any more.
not-IsTold :
    (events : List DrillEvent) (ds : List Drill) (drill_id : Ident) (drill : Drill)
    (f : Drill → Drill)
    → All (IsTold events) ds
    → find (λ (d : Drill). d.drill_id == drill_id) ds ≡ some drill
    → ((d : Drill) → (f d).id ≡ d.id)
    → ((d : Drill) → (f d).drill_id ≡ d.drill_id)
    → allowed drill.state (f drill).state ≡ true
    → ¬ All (IsTold events) (update_where (λ (d : Drill). d.id == drill.id) f ds)
not-IsTold events ds drill_id drill f h found ids names may h' =
    let told = find-All (IsTold events) (λ (d : Drill). d.drill_id == drill_id) ds h found in
    let told' =
      find-All (IsTold events) (λ (d : Drill). d.drill_id == drill_id) _ h'
        (find_updated (λ (d : Drill). d.drill_id == drill_id) (λ (d : Drill). d.id == drill.id) f ds
          drill (λ d. rw (names d) refl) (==_refl drill.id) found) in
    let told'' = rw (ids drill) at told' in
    let same : drill.state ≡ (f drill).state = ground (arith, sym told ∙ told'') in
    ground (arith, moves_on drill.state, rw (sym same) at may)

-- An allowed `advance` of a recorded database, whose first reconciliation is of a service that the
-- drill has one of already, throws, and leaves a database whose events do not tell the states.
pub advance_torn :
    (env : Env) (input : AdvanceDrillInput) (db : Db) (drill : Drill) (item : ReconciliationInput)
    (items : List ReconciliationInput)
    → IsRecorded db
    → drill_by_id input.drill_id db ≡ some drill
    → allowed drill.state input.state ≡ true
    → input.reconciliations ≡ item ∷ items
    → any
        (λ (r : Reconciliation). r.drill_row_id == drill.id && r.service == item.service)
        db.reconciliations
      ≡ true
    → ((advance env input db).0 ≡ err unique_violation) × (¬ IsRecorded (advance env input db).1)
unfolding advance advanced_row advance_found add_reconciliations finish_advance
advance_torn env input db drill item items h found may given taken =
    rw (found, advance, may, advance_found, given, taken)
      (
        refl,
        not-IsTold db.events db.drills input.drill_id drill
            (advanced_row env (record input { reconciliations = item ∷ items }) drill
              (chosen_backup input drill db))
            h found (λ d. refl) (λ d. refl) may,
      )
