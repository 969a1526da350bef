-- ===== src/Resilience/Drills/Steps.antt =====
-- drill.service.ts: what its operations do to the history that the events tell of each drill.
use aegis_shield_phase.Prelude.{
  ℕ, ◌≡◌, refl, ap, sym, true, false, Option, some, List, [], ◌∷◌, ◌++◌, inl, inr, arith, ◌==◌, any,
  update_where, is_some, All, All-append, All-update_where, find-All, ==→≡, ==_refl, Bool-cases,
  Option-cases, ok, err, Result-cases,
}
use aegis_shield_phase.Resilience.Schema.{
  Ident, planned, Drill, DrillEvent, Db, Env, AdvanceDrillInput,
}
use aegis_shield_phase.Resilience.Drills.{
  RecoveryDrill, allowed, drill_by_id, chosen_backup, advanced_row, append_event,
  add_reconciliations, finish_advance, advance_found, advance, create_drill, acknowledge_found,
  acknowledged, acknowledge, bound_note,
}
use aegis_shield_phase.Resilience.Drills.Trail.{trail, states_of, states_of-append, trail-append}

-- The events of a drill are a walk along the allowed transitions that ends in its state.
abbrev pub IsTold : List DrillEvent → Drill → Type 0
IsTold es d = trail (states_of d.id es) ≡ some d.state

abbrev pub IsRecorded : Db → Type 0
IsRecorded db = All (IsTold db.events) db.drills

told_moved :
    (es : List DrillEvent) (e : DrillEvent) (d : Drill)
    → e.drill_row_id ≡ d.id
    → allowed d.state e.state ≡ true
    → IsTold es d
    → trail (states_of d.id (es ++ e ∷ [])) ≡ some e.state
told_moved es e d same a told =
    rw (states_of-append, same, ==_refl) (trail-append (states_of d.id es) d.state e.state told a)

IsTold-other :
    (es : List DrillEvent) (e : DrillEvent) (d : Drill)
    → (e.drill_row_id == d.id) ≡ false
    → IsTold es d
    → IsTold (es ++ e ∷ []) d
IsTold-other es e d other told = rw (states_of-append, other) told

same_state :
    (es : List DrillEvent) (d d' : Drill)
    → d.id ≡ d'.id
    → IsTold es d
    → IsTold es d'
    → d.state ≡ d'.state
same_state es d d' same h h' = ground (arith, rw (same) at h)

-- Every row of the drill's id takes the event's state, and every other row keeps its own.
rows_moved :
    (es : List DrillEvent) (e : DrillEvent) (drill : Drill) (f : Drill → Drill) (ds : List Drill)
    → e.drill_row_id ≡ drill.id
    → allowed drill.state e.state ≡ true
    → IsTold es drill
    → ((d : Drill) → (f d).id ≡ d.id)
    → ((d : Drill) → (f d).state ≡ e.state)
    → All (IsTold es) ds
    → All (IsTold (es ++ e ∷ [])) (update_where (λ (d : Drill). d.id == drill.id) f ds)
rows_moved es e drill f [] same a told ids states h = tt
rows_moved es e drill f (d ∷ ds) same a told ids states h =
    let rest = rows_moved es e drill f ds same a told ids states h.1 in
    elim (Bool-cases (d.id == drill.id)) [
      | inl hit ↦
          let eq = ==→≡ d.id drill.id hit in
          let ended =
            told_moved es e d (ground arith) (ground (arith, same_state es d drill eq h.0 told))
              h.0 in
          (rw (hit, ids d, states d) ended, rest)
      | inr miss ↦ (rw miss (IsTold-other es e d (ground arith) h.0), rest)
    ]

-- A fresh row begins its history, and the events of the others are as they were.
rows_opened :
    (es : List DrillEvent) (e : DrillEvent) (ds : List Drill)
    → any (λ (d : Drill). d.id == e.drill_row_id) ds ≡ false
    → All (IsTold es) ds
    → All (IsTold (es ++ e ∷ [])) ds
rows_opened es e [] fresh h = tt
rows_opened es e (d ∷ ds) fresh h =
    (IsTold-other es e d (ground arith) h.0, rows_opened es e ds (ground arith) h.1)

found_moves :
    (env : Env) (input : AdvanceDrillInput) (drill : Drill) (db after : Db) {r : RecoveryDrill}
    → IsTold db.events drill
    → IsRecorded db
    → advance_found env input drill db ≡ (ok r, after)
    → IsRecorded after
unfolding advance_found finish_advance append_event advanced_row
found_moves env input drill db after {r} told h ran =
    let written = add_reconciliations env drill.id input.reconciliations db.reconciliations in
    elim (Bool-cases (allowed drill.state input.state)) [
      | inr refused ↦ absurd (ground (arith, rw (refused, advance_found) at ran))
      | inl may ↦ elim (Result-cases written.0) [
        | inr (e, threw) ↦
            let eq : written ≡ (err e, written.1) = λ i. (threw i, written.1) in
            absurd (ground (arith, rw (may, eq, advance_found, finish_advance) at ran))
        | inl (u, stored) ↦
            let eq : written ≡ (ok u, written.1) = λ i. (stored i, written.1) in
            let out = rw (may, eq, advance_found, finish_advance) at ran in
            let event : DrillEvent = record {
              event_id = env.event_id;
              drill_row_id = drill.id;
              state = input.state;
              occurred_at = env.now;
              note = bound_note input.note;
            } in
            rw (sym (ap (λ p. p.1) out)) (
              rows_moved db.events event drill
                (advanced_row env input drill (chosen_backup input drill db)) db.drills refl may
                told (λ d. refl) (λ d. refl) h)
      ]
    ]

-- When `advance` returns, each drill's events are still a walk along the allowed transitions that
-- ends in its state.
pub advance-IsRecorded :
    (env : Env) (input : AdvanceDrillInput) (db after : Db) {r : RecoveryDrill}
    → IsRecorded db
    → advance env input db ≡ (ok r, after)
    → IsRecorded after
unfolding advance
advance-IsRecorded env input db after {r} h ran =
    elim (Option-cases (drill_by_id input.drill_id db)) [
      | inl gone ↦ absurd (ground (arith, rw (gone, advance) at ran))
      | inr (drill, found) ↦
          found_moves env input drill db after
            (find-All (IsTold db.events) (λ (d : Drill). d.drill_id == input.drill_id) db.drills h
              found)
            h (rw (found, advance) at ran)
    ]

-- A drill opened under a row identifier that no drill and no event uses yet has the history
-- PLANNED, and the others' are as they were.
pub create_drill-IsRecorded :
    (env : Env) (drill_type requested_by : Ident) (note : Option (List ℕ)) (db : Db)
    → any (λ (d : Drill). d.id == env.row_id) db.drills ≡ false
    → states_of env.row_id db.events ≡ []
    → IsRecorded db
    → IsRecorded (create_drill env drill_type requested_by note db).1
unfolding create_drill append_event
create_drill-IsRecorded env drill_type requested_by note db fresh unused h =
    let event : DrillEvent = record {
      event_id = env.event_id;
      drill_row_id = env.row_id;
      state = planned;
      occurred_at = env.now;
      note = bound_note note;
    } in
    elim (Bool-cases (is_some (drill_by_id env.drill_id db))) [
      | inl taken ↦ rw (taken, create_drill) h
      | inr free ↦
          rw (free, create_drill)
            (All-append (IsTold (db.events ++ event ∷ [])) db.drills _
              (rows_opened db.events event db.drills fresh h)
              (rw (states_of-append, ==_refl, unused) refl, tt))
    ]

acknowledge_cases :
    (env : Env) (drill : Drill) (drill_id operator_id reason : Ident) (db : Db)
    → IsRecorded db
    → All (IsTold db.events) (
        update_where
          (λ (d : Drill). d.id == drill.id)
          (acknowledged env operator_id reason)
          db.drills)
    → IsRecorded (acknowledge_found env drill drill_id operator_id reason db).1
unfolding acknowledge_found
acknowledge_cases env drill drill_id operator_id reason db h kept = ground arith

pub acknowledge-IsRecorded :
    (env : Env) (drill_id operator_id reason : Ident) (db : Db)
    → IsRecorded db
    → IsRecorded (acknowledge env drill_id operator_id reason db).1
unfolding acknowledge acknowledge_found
acknowledge-IsRecorded env drill_id operator_id reason db h =
    elim (Option-cases (drill_by_id drill_id db)) [
      | inl gone ↦ rw (gone, acknowledge) h
      | inr (drill, found) ↦
          let kept =
            All-update_where (IsTold db.events) (λ (d : Drill). d.id == drill.id)
              (acknowledged env operator_id reason) db.drills (λ d told hit. told) h in
          rw (found, acknowledge)
            (acknowledge_cases env drill drill_id operator_id reason db h kept)
    ]
