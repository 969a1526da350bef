-- ===== src/Resilience/Schema.antt =====
-- services/resilience: the rows (prisma/schema.prisma) and the inputs of drill.service.ts.
use aegis_shield_phase.Prelude.{ℕ, Bool, Option, List}

abbrev pub Ident : Type 0
Ident = ℕ

pub data DrillState : Type 0 where
  planned running backup_created restore_verified reconciliation_passed : DrillState
  passed failed cleaned_up : DrillState

pub data CheckStatus : Type 0 where
  pass fail : CheckStatus

pub data DrillError : Type 0 where
  not_found invalid_drill_transition drill_not_failed already_acknowledged : DrillError
  unique_violation : DrillError

pub record BackupSet : Type 0 where
  pub id : Ident
  pub backup_set_id : Ident
  pub created_at : ℕ
  pub services : List Ident
  pub manifest_checksum : Ident
  pub encryption_algorithm : Ident
  pub size_bytes : ℕ
  pub verified : Bool

pub record Drill : Type 0 where
  pub id : Ident
  pub drill_id : Ident
  pub drill_type : Ident
  pub state : DrillState
  pub started_at : ℕ
  pub completed_at : Option ℕ
  pub requested_by : Ident
  pub backup_set_id : Option Ident
  pub measured_recovery_point_age_seconds : Option ℕ
  pub measured_recovery_duration_ms : Option ℕ
  pub failure_code : Option Ident
  pub acknowledged_at : Option ℕ
  pub acknowledged_by : Option Ident
  pub acknowledgement_reason : Option Ident

pub record DrillEvent : Type 0 where
  pub event_id : Ident
  pub drill_row_id : Ident
  pub state : DrillState
  pub occurred_at : ℕ
  pub note : Option (List ℕ)

pub record Reconciliation : Type 0 where
  pub drill_row_id : Ident
  pub service : Ident
  pub status : CheckStatus
  pub issue_count : ℕ
  pub checked_at : ℕ

pub record Db : Type 0 where
  pub backup_sets : List BackupSet
  pub drills : List Drill
  pub events : List DrillEvent
  pub reconciliations : List Reconciliation

-- The clock, and the identifiers that `randomUUID` and the database choose.
pub record Env : Type 0 where
  pub now : ℕ
  pub row_id : Ident
  pub drill_id : Ident
  pub event_id : Ident

pub record RecordBackupSetInput : Type 0 where
  pub backup_set_id : Ident
  pub created_at : ℕ
  pub services : List Ident
  pub manifest_checksum : Ident
  pub encryption_algorithm : Ident
  pub size_bytes : ℕ

pub record ReconciliationInput : Type 0 where
  pub service : Ident
  pub status : CheckStatus
  pub issue_count : ℕ

pub record AdvanceDrillInput : Type 0 where
  pub drill_id : Ident
  pub state : DrillState
  pub note : Option (List ℕ)
  pub backup_set_id : Option Ident
  pub measured_recovery_point_age_seconds : Option ℕ
  pub measured_recovery_duration_ms : Option ℕ
  pub failure_code : Option Ident
  pub reconciliations : List ReconciliationInput
