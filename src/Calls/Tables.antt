-- ===== src/Calls/Tables.antt =====
-- The rows of packages/database/review_schema.py that the review repository reads and writes.
-- A table is a list, its newest row first; a JSON payload is the contract that was dumped into it,
-- and the columns that repeat a field of the payload for indexing are left to it.
use phone_law.Prelude.{ℕ, String, Bool, Option, List}
use phone_law.Calls.State.{ProcessingState}
use phone_law.Contracts.Events.{
  CallSource, NormalizedCall, IngestionEvent, IngestionDisposition, FailureClass, Provenance,
}
use phone_law.Contracts.Analysis.{Transcript, StructuredAnalysis}

pub record CallRow : Type 0 where
  pub id : String
  pub fixture_id : String
  pub source : CallSource
  pub source_call_id : String
  pub state : ProcessingState
  pub is_synthetic : Bool
  pub occurred_at : ℕ
  pub normalized_payload : NormalizedCall
  pub created_at : ℕ

pub record EventRow : Type 0 where
  pub id : String
  pub call_id : String
  pub source : CallSource
  pub source_event_id : String
  pub fixture_id : String
  pub disposition : IngestionDisposition
  pub duplicate_delivery_count : ℕ
  pub event_payload : IngestionEvent
  pub received_at : ℕ

pub record AttemptRow : Type 0 where
  pub id : String
  pub call_id : String
  pub attempt_number : ℕ
  pub state : ProcessingState
  pub failure_class : Option FailureClass
  pub diagnostic_code : Option String
  pub retryable : Option Bool
  pub provenance_payload : Provenance
  pub started_at : ℕ
  pub completed_at : Option ℕ

pub record TranscriptRow : Type 0 where
  pub id : String
  pub call_id : String
  pub attempt_id : String
  pub original_payload : Transcript
  pub created_at : ℕ

pub record AnalysisRow : Type 0 where
  pub id : String
  pub call_id : String
  pub attempt_id : String
  pub original_payload : StructuredAnalysis
  pub created_at : ℕ

-- The fields of a playbook payload that get a column.
pub record PlaybookPayload : Type 0 where
  pub playbook_id : String
  pub version : String
  pub status : String
  pub synthetic : Bool

pub record PlaybookRow : Type 0 where
  pub id : String
  pub version : String
  pub status : String
  pub is_synthetic : Bool
  pub structured_payload : PlaybookPayload
  pub created_at : ℕ

pub record Tables : Type 0 where
  pub calls : List CallRow
  pub events : List EventRow
  pub attempts : List AttemptRow
  pub transcripts : List TranscriptRow
  pub analyses : List AnalysisRow
  pub playbooks : List PlaybookRow
