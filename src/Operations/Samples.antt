-- ===== src/Operations/Samples.antt =====
-- Invented data for the examples of local operations.
use phone_law.Prelude.{◌+◌, true, false, none, some, [], ◌∷◌}
use phone_law.Policy.{DemoPrincipal, administrator, reviewer, operations}
use phone_law.Contracts.Events.{Direction}
use phone_law.Contracts.Analysis.{AnalysisCategory}
use phone_law.Operations.Contracts.{LocalRetentionSchedule}
use phone_law.Operations.Configuration.{LocalFirmConfiguration}
use phone_law.Operations.Tables.{Database, Environment, ConfigurationRow, ReceiptRow, content}

abbrev one_day : LocalRetentionSchedule
one_day = record {
  generated_media_days = 1;
  invented_transcript_days = 1;
  accepted_analysis_days = 1;
  daily_report_days = 1;
  processing_attempt_days = 1;
  manual_upload_receipt_days = 1;
  reviewer_feedback_days = 1;
  playbook_version_days = 1;
  audit_metadata_days = 1;
}

abbrev pub sample_configuration : LocalFirmConfiguration
sample_configuration = record {
  schema_version = "local-firm-configuration-v1";
  daily_report_cutoff = "18:00";
  eligible_call_directions = Direction.inbound ∷ [];
  eligible_call_categories = AnalysisCategory.new_intake ∷ [];
  staff_extension_mappings =
      record { extension = "SYN-101"; synthetic_label = "Synthetic staff A" } ∷ [];
  report_roles = reviewer ∷ administrator ∷ operations ∷ [];
  synthetic_playbook_version = "synthetic-draft-v1";
  retention = one_day;
}

abbrev pub admin : DemoPrincipal
admin = record { principal_id = "demo-administrator"; role = administrator }

abbrev pub first_version : ConfigurationRow
first_version = record {
  id = "configuration-1";
  version = 1;
  configuration_payload = sample_configuration;
  content_hash = "hash-of-the-first";
  principal_id = "demo-administrator";
  role = administrator;
  created_at = 0;
}

abbrev pub sample_receipt : ReceiptRow
sample_receipt = record {
  id = "receipt-1";
  object_id = some "0123456789abcdef0123456789abcdef";
  artifact_id = some "artifact-1";
  validation_summary = content "summary";
  deletion_confirmed = none;
  created_at = 0;
}

-- A clock that starts ten days in, and a plan without failures.
abbrev pub sample_environment : Environment
sample_environment = record {
  now = λ n. n + 864000000000;
  uuid = λ n. "id";
  sha256 = λ s. s;
  serialize = λ c. c.daily_report_cutoff;
  precedes = λ a b. false;
  diagnostic_for = λ job. none;
  store_opens = true;
  is_symlink = λ o. false;
  can_unlink = λ o. true;
}

abbrev pub failing_environment : Environment
failing_environment = record sample_environment { diagnostic_for = λ job. some "injected" }

abbrev pub sample_database : Database
sample_database = record {
  media_artifacts = [];
  media_lifecycle_events = [];
  transcription_provider_attempts = [];
  transcripts = record { id = "transcript-1"; created_at = 0; payload = content "words" } ∷ [];
  analyses = [];
  daily_reports = [];
  daily_report_items = [];
  processing_attempts = [];
  manual_upload_receipts = sample_receipt ∷ [];
  review_events = [];
  playbook_versions = [];
  audit_events = [];
  retention_jobs = [];
  retention_tombstones = [];
  maintenance_runs = [];
  firm_configuration_versions = first_version ∷ [];
  objects = "0123456789abcdef0123456789abcdef" ∷ [];
  ticks = 0;
  issued = 0;
}
