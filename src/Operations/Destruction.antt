-- ===== src/Operations/Destruction.antt =====
-- `_destroy_content`: what is removed or overwritten for each kind of resource.
use phone_law.Prelude.{String, true, not, none, some, List, ◌==◌, select, update_where}
use phone_law.Operations.Contracts.{
  RetentionResource, generated_media, invented_transcript, accepted_analysis, daily_report,
  processing_attempt, manual_upload_receipt, reviewer_feedback, playbook_version, audit_metadata,
}
use phone_law.Operations.Tables.{
  Database, ContentRow, ReportItemRow, ArtifactRow, ReceiptRow, FeedbackRow, content_destroyed,
}

abbrev pub erase : ContentRow → ContentRow
erase r = record r { payload = content_destroyed }

abbrev pub erase_item : ReportItemRow → ReportItemRow
erase_item r = record r { item_payload = content_destroyed }

abbrev pub erase_note : FeedbackRow → FeedbackRow
erase_note r = record r { note = none }

abbrev pub mark : String → List ContentRow → List ContentRow
mark resource_id rows = update_where (λ r. r.id == resource_id) erase rows

abbrev pub mark_items : String → List ReportItemRow → List ReportItemRow
mark_items report_id rows = update_where (λ r. r.report_id == report_id) erase_item rows

abbrev pub without_artifact : String → List ArtifactRow → List ArtifactRow
without_artifact artifact_id rows = select (λ r. not (r.artifact_id == artifact_id)) rows

abbrev pub blank : ReceiptRow → ReceiptRow
blank r = record r {
  validation_summary = content_destroyed;
  object_id = none;
  deletion_confirmed = some true;
}

unfoldable pub destroy_content : RetentionResource → String → Database → Database
destroy_content generated_media id db = record db {
  transcription_provider_attempts = without_artifact id db.transcription_provider_attempts;
  media_lifecycle_events = without_artifact id db.media_lifecycle_events;
  media_artifacts = select (λ r. not (r.id == id)) db.media_artifacts;
}
destroy_content invented_transcript id db = record db { transcripts = mark id db.transcripts }
destroy_content accepted_analysis id db = record db { analyses = mark id db.analyses }
destroy_content daily_report id db = record db {
  daily_report_items = mark_items id db.daily_report_items;
  daily_reports = mark id db.daily_reports;
}
destroy_content processing_attempt id db = record db {
  processing_attempts = mark id db.processing_attempts;
}
destroy_content manual_upload_receipt id db = record db {
  manual_upload_receipts = update_where (λ r. r.id == id) blank db.manual_upload_receipts;
}
destroy_content reviewer_feedback id db = record db {
  review_events = update_where (λ r. r.id == id) erase_note db.review_events;
}
destroy_content playbook_version id db = record db {
  playbook_versions = mark id db.playbook_versions;
}
destroy_content audit_metadata id db = db
