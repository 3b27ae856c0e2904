-- ===== src/Operations/Contracts.antt =====
-- The contracts of packages/contracts/operations.py that retention uses. Times are microseconds.
use phone_law.Prelude.{ℕ, ◌*◌, String, Bool, true, false, Option}

pub data RetentionResource : Type 0 where
  generated_media invented_transcript accepted_analysis daily_report : RetentionResource
  processing_attempt manual_upload_receipt reviewer_feedback playbook_version : RetentionResource
  audit_metadata : RetentionResource

abbrev pub resource_value : RetentionResource → String
resource_value generated_media = "generated_media"
resource_value invented_transcript = "invented_transcript"
resource_value accepted_analysis = "accepted_analysis"
resource_value daily_report = "daily_report"
resource_value processing_attempt = "processing_attempt"
resource_value manual_upload_receipt = "manual_upload_receipt"
resource_value reviewer_feedback = "reviewer_feedback"
resource_value playbook_version = "playbook_version"
resource_value audit_metadata = "audit_metadata"

-- The position of a member in the enumeration.
abbrev pub position : RetentionResource → ℕ
position generated_media = 0
position invented_transcript = 1
position accepted_analysis = 2
position daily_report = 3
position processing_attempt = 4
position manual_upload_receipt = 5
position reviewer_feedback = 6
position playbook_version = 7
position audit_metadata = 8

pub data DeletionState : Type 0 where
  scheduled deleting retry_scheduled : DeletionState
  deleted deletion_failed retained_exception : DeletionState

pub data MaintenanceKind : Type 0 where
  retention_evaluation deletion_execution reconciliation backup_restore_drill : MaintenanceKind

pub record LocalRetentionSchedule : Type 0 where
  pub generated_media_days : ℕ
  pub invented_transcript_days : ℕ
  pub accepted_analysis_days : ℕ
  pub daily_report_days : ℕ
  pub processing_attempt_days : ℕ
  pub manual_upload_receipt_days : ℕ
  pub reviewer_feedback_days : ℕ
  pub playbook_version_days : ℕ
  pub audit_metadata_days : ℕ

abbrev pub days_for : LocalRetentionSchedule → RetentionResource → ℕ
days_for s generated_media = s.generated_media_days
days_for s invented_transcript = s.invented_transcript_days
days_for s accepted_analysis = s.accepted_analysis_days
days_for s daily_report = s.daily_report_days
days_for s processing_attempt = s.processing_attempt_days
days_for s manual_upload_receipt = s.manual_upload_receipt_days
days_for s reviewer_feedback = s.reviewer_feedback_days
days_for s playbook_version = s.playbook_version_days
days_for s audit_metadata = s.audit_metadata_days

-- `timedelta(days=…)` in microseconds.
abbrev pub days : ℕ → ℕ
days n = n * 86400000000

-- `timedelta(minutes=…)`
abbrev pub minutes : ℕ → ℕ
minutes n = n * 60000000

pub record DeletionJob : Type 0 where
  pub job_id : String
  pub resource_type : RetentionResource
  pub resource_id : String
  pub configuration_version : ℕ
  pub state : DeletionState
  pub attempt_count : ℕ
  pub diagnostic_code : Option String
  pub scheduled_at : ℕ
  pub next_attempt_at : Option ℕ
  pub completed_at : Option ℕ

-- The `safe_counts` of a run of maintenance.
pub record RunCounts : Type 0 where
  pub evaluated : ℕ
  pub scheduled : ℕ
  pub not_due : ℕ
  pub recovered : ℕ
  pub deleted : ℕ
  pub retry_scheduled : ℕ
  pub terminal_failed : ℕ
  pub retained_exceptions : ℕ

pub record RetentionRunResult : Type 0 where
  pub maintenance_run_id : String
  pub counts : RunCounts
  pub completed_at : ℕ

-- The states in which a job is not executed again.
abbrev pub is_final : DeletionState → Bool
is_final deleted = true
is_final deletion_failed = true
is_final retained_exception = true
is_final _ = false

abbrev pub same_resource : RetentionResource → RetentionResource → Bool
same_resource generated_media generated_media = true
same_resource invented_transcript invented_transcript = true
same_resource accepted_analysis accepted_analysis = true
same_resource daily_report daily_report = true
same_resource processing_attempt processing_attempt = true
same_resource manual_upload_receipt manual_upload_receipt = true
same_resource reviewer_feedback reviewer_feedback = true
same_resource playbook_version playbook_version = true
same_resource audit_metadata audit_metadata = true
same_resource _ _ = false
