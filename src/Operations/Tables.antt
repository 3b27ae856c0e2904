-- ===== src/Operations/Tables.antt =====
-- The rows that retention reads and writes, of packages/database/review_schema.py, with the columns
-- that it uses; and the local object store, as the identifiers of the objects that it holds.
use phone_law.Policy.{DemoRole}
use phone_law.Operations.Configuration.{LocalFirmConfiguration}
use phone_law.Prelude.{ℕ, String, Bool, Option, List}
use phone_law.Operations.Contracts.{
  RetentionResource, DeletionState, MaintenanceKind, DeletionJob, RunCounts,
}

-- A JSON column: what was stored, or the marker that replaces it.
pub data Payload : Type 0 where
  content : String → Payload
  content_destroyed : Payload

-- `transcripts`, `analyses`, `daily_reports`, `processing_attempts` and `playbook_versions`.
pub record ContentRow : Type 0 where
  pub id : String
  pub created_at : ℕ
  pub payload : Payload

pub record ReportItemRow : Type 0 where
  pub id : String
  pub report_id : String
  pub item_payload : Payload

pub record MediaRow : Type 0 where
  pub id : String
  pub created_at : ℕ

-- `media_lifecycle_events` and `transcription_provider_attempts`
pub record ArtifactRow : Type 0 where
  pub id : String
  pub artifact_id : String

pub record ReceiptRow : Type 0 where
  pub id : String
  pub object_id : Option String
  pub artifact_id : Option String
  pub validation_summary : Payload
  pub deletion_confirmed : Option Bool
  pub created_at : ℕ

pub record FeedbackRow : Type 0 where
  pub id : String
  pub note : Option String
  pub created_at : ℕ

pub record AuditRow : Type 0 where
  pub id : String
  pub principal_id : String
  pub role : DemoRole
  pub action : String
  pub target_type : String
  pub target_id : String
  pub result : String
  pub created_at : ℕ

pub record JobRow : Type 0 where
  pub id : String
  pub resource_type : RetentionResource
  pub resource_id : String
  pub configuration_version : ℕ
  pub state : DeletionState
  pub attempt_count : ℕ
  pub diagnostic_code : Option String
  pub scheduled_at : ℕ
  pub next_attempt_at : Option ℕ
  pub completed_at : Option ℕ
  pub updated_at : ℕ

pub record TombstoneRow : Type 0 where
  pub id : String
  pub resource_type : RetentionResource
  pub resource_id : String
  pub configuration_version : ℕ
  pub result : String
  pub exception_code : Option String
  pub destroyed_at : ℕ

pub record MaintenanceRow : Type 0 where
  pub id : String
  pub kind : MaintenanceKind
  pub safe_counts : RunCounts
  pub principal_id : String
  pub role : DemoRole
  pub started_at : ℕ
  pub completed_at : ℕ

-- `firm_configuration_versions`; the payload is the configuration that was serialized into it.
pub record ConfigurationRow : Type 0 where
  pub id : String
  pub version : ℕ
  pub configuration_payload : LocalFirmConfiguration
  pub content_hash : String
  pub principal_id : String
  pub role : DemoRole
  pub created_at : ℕ

-- The tables, newest row first. `ticks` counts the readings of the clock, and `issued` the
-- identifiers that were drawn.
pub record Database : Type 0 where
  pub media_artifacts : List MediaRow
  pub media_lifecycle_events : List ArtifactRow
  pub transcription_provider_attempts : List ArtifactRow
  pub transcripts : List ContentRow
  pub analyses : List ContentRow
  pub daily_reports : List ContentRow
  pub daily_report_items : List ReportItemRow
  pub processing_attempts : List ContentRow
  pub manual_upload_receipts : List ReceiptRow
  pub review_events : List FeedbackRow
  pub playbook_versions : List ContentRow
  pub audit_events : List AuditRow
  pub retention_jobs : List JobRow
  pub retention_tombstones : List TombstoneRow
  pub maintenance_runs : List MaintenanceRow
  pub firm_configuration_versions : List ConfigurationRow
  pub objects : List String
  pub ticks : ℕ
  pub issued : ℕ

-- What the code is given from outside: the clock, `uuid4().hex`, the hexadecimal SHA-256 of a text,
-- `json.dumps` of a configuration, the database's order of identifiers, the plan of injected failures, whether the store can be opened,
-- which paths are links, and which objects can be unlinked.
pub record Environment : Type 0 where
  pub now : ℕ → ℕ
  pub uuid : ℕ → String
  pub sha256 : String → String
  pub serialize : LocalFirmConfiguration → String
  pub precedes : String → String → Bool
  pub diagnostic_for : DeletionJob → Option String
  pub store_opens : Bool
  pub is_symlink : String → Bool
  pub can_unlink : String → Bool
