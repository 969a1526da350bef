-- ===== src/Resilience/Reads.antt =====
-- drill.service.ts: the reads `history` and `events`.
-- Drill identifiers are numbered in the order of their texts.
use aegis_shield_phase.Prelude.{
  ℕ, ◌+◌, Bool, true, ◌&&◌, ◌||◌, Option, none, some, List, [], ◌∷◌, map, ltb, ◌==◌, if◌then◌else◌,
  filter, take, length, Result, ok, err,
}
use aegis_shield_phase.Resilience.Schema.{
  Ident, DrillState, planned, running, backup_created, restore_verified, reconciliation_passed,
  passed, failed, cleaned_up, DrillError, not_found, Drill, DrillEvent, Db,
}
use aegis_shield_phase.Resilience.Drills.{RecoveryDrill, to_drill, drill_by_id}

-- Two rows in the order of `orderBy: [{ startedAt: 'desc' }, { drillId: 'desc' }]`.
abbrev pub comes_first : Drill → Drill → Bool
comes_first d e =
    ltb e.started_at d.started_at || e.started_at == d.started_at && ltb e.drill_id d.drill_id

abbrev pub insert_drill : Drill → List Drill → List Drill
insert_drill d [] = d ∷ []
insert_drill d (e ∷ es) =
    let rest = insert_drill d es in if comes_first d e then d ∷ e ∷ es else e ∷ rest

abbrev pub newest_first : List Drill → List Drill
newest_first [] = []
newest_first (d ∷ ds) = insert_drill d (newest_first ds)

abbrev pub state_number : DrillState → ℕ
state_number planned = 0
state_number running = 1
state_number backup_created = 2
state_number restore_verified = 3
state_number reconciliation_passed = 4
state_number passed = 5
state_number failed = 6
state_number cleaned_up = 7

abbrev pub has_state : Option DrillState → Drill → Bool
has_state none d = true
has_state (some s) d = state_number d.state == state_number s

-- An unknown cursor is no cursor.
abbrev pub cursor_row : Option Ident → Db → Option Drill
cursor_row none db = none
cursor_row (some id) db = drill_by_id id db

abbrev pub before_cursor : Option Drill → Drill → Bool
before_cursor none d = true
before_cursor (some c) d = ltb d.started_at c.started_at

pub record HistoryOptions : Type 0 where
  pub limit : ℕ
  pub cursor : Option Ident
  pub state : Option DrillState

pub record HistoryPage : Type 0 where
  pub drills : List RecoveryDrill
  pub next_cursor : Option Ident

-- `findMany`, one row more than the limit.
unfoldable pub history_rows : HistoryOptions → Db → List Drill
history_rows options db = take (options.limit + 1) (
    newest_first (
      filter
        (λ (d : Drill). has_state options.state d && before_cursor (cursor_row options.cursor db) d)
        db.drills))

abbrev pub last_drill_id : List Drill → Option Ident
last_drill_id [] = none
last_drill_id (d ∷ []) = some d.drill_id
last_drill_id (d ∷ e ∷ es) = last_drill_id (e ∷ es)

unfoldable pub history : HistoryOptions → Db → HistoryPage
unfolding history_rows to_drill
history options db =
    let rows = history_rows options db in
    let page = take options.limit rows in
    record {
      drills = map (λ (d : Drill). to_drill d db) page;
      next_cursor = if ltb options.limit (length rows) then last_drill_id page else none;
    }

-- The events of a drill in the order of their instants, at most 200.
abbrev pub insert_event : DrillEvent → List DrillEvent → List DrillEvent
insert_event e [] = e ∷ []
insert_event e (x ∷ xs) =
    let rest = insert_event e xs in if ltb x.occurred_at e.occurred_at then x ∷ rest else e ∷ x ∷ xs

abbrev pub oldest_first : List DrillEvent → List DrillEvent
oldest_first [] = []
oldest_first (e ∷ es) = insert_event e (oldest_first es)

unfoldable pub events : Ident → Db → Result DrillError (List DrillEvent)
events drill_id db = elim (drill_by_id drill_id db) [
  | none ↦ err not_found
  | some drill ↦
      ok (
        take 200 (oldest_first (filter (λ (e : DrillEvent). e.drill_row_id == drill.id) db.events)))
]
