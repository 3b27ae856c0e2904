-- ===== src/Contracts/Events.antt =====
-- The calls, events and failures of packages/contracts/review.py. Times are microseconds, and
-- lengths within a call are numbers of one unit, of which the code uses the order only.
use phone_law.Prelude.{ℕ, String, Bool, true, false, Option}
use phone_law.Calls.State.{ProcessingState}

pub data CallSource : Type 0 where
  fixture transcript_only manual_upload broadvoice : CallSource

abbrev pub same_source : CallSource → CallSource → Bool
same_source fixture fixture = true
same_source transcript_only transcript_only = true
same_source manual_upload manual_upload = true
same_source broadvoice broadvoice = true
same_source _ _ = false

pub data Direction : Type 0 where
  inbound outbound unknown : Direction

pub data FailureClass : Type 0 where
  invalid_media transcriber_unavailable invalid_structured_output : FailureClass
  analyzer_unavailable : FailureClass

pub data IngestionDisposition : Type 0 where
  accepted duplicate_event duplicate_call : IngestionDisposition

-- `NormalizedCall`; of its metadata the flag that the pipeline reads.
pub record NormalizedCall : Type 0 where
  pub source : CallSource
  pub source_event_id : String
  pub source_call_id : String
  pub recording_id : Option String
  pub occurred_at : ℕ
  pub direction : Direction
  pub duration_seconds : ℕ
  pub staff_extension : Option String
  pub language_hint : Option String
  pub media_reference : Option String
  pub transcript_fixture_reference : Option String
  pub caller_identity_verified : Bool
  pub synthetic : Bool

pub record IngestionEvent : Type 0 where
  pub fixture_id : String
  pub received_at : ℕ
  pub call : NormalizedCall

pub record IngestionResult : Type 0 where
  pub call_id : String
  pub event_id : String
  pub disposition : IngestionDisposition

pub record Provenance : Type 0 where
  pub schema_version : String
  pub call_source : CallSource
  pub source_event_id : String
  pub source_call_id : String
  pub transcript_adapter : String
  pub transcript_model_version : String
  pub analysis_adapter : String
  pub analysis_model_version : String
  pub prompt_version : String
  pub playbook_version : String
  pub adapter_version : String
  pub generated_at : ℕ
  pub processing_attempt_id : String
  pub environment : String

-- `SanitizedProcessingFailure`
pub record ProcessingFailure : Type 0 where
  pub failure_class : FailureClass
  pub terminal_state : ProcessingState
  pub diagnostic_code : String
  pub retryable : Bool
