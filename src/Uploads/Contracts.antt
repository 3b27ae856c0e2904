-- ===== src/Uploads/Contracts.antt =====
-- The contracts of uploads: packages/contracts/manual_upload.py. Times are microseconds, and a
-- duration is a number of one unit of which only the order is used.
use phone_law.Prelude.{ℕ, String, Bool, true, ◌&&◌, ◌||◌, not, Option, List, is_some}
use phone_law.Policy.{DemoRole}
use phone_law.Contracts.Events.{Direction}

pub data UploadKind : Type 0 where
  synthetic_audio transcript_only : UploadKind

pub data UploadState : Type 0 where
  received validating ready processing analyzed validation_failed : UploadState
  transcription_failed analysis_failed cancelled deletion_failed : UploadState

pub record UploadMetadata : Type 0 where
  pub client_submission_id : String
  pub direction : Direction
  pub captured_at : ℕ
  pub language_hint : String
  pub staff_extension : String

pub record UploadValidationSummary : Type 0 where
  pub kind : UploadKind
  pub contract_version : String
  pub byte_size : ℕ
  pub duration_seconds : ℕ
  pub media_format : Option String
  pub channel_count : Option ℕ
  pub sample_rate_hz : Option ℕ
  pub segment_count : Option ℕ

abbrev shape_of : UploadKind → UploadValidationSummary → Bool
shape_of synthetic_audio v =
    is_some v.media_format
    && (is_some v.channel_count && (is_some v.sample_rate_hz && not (is_some v.segment_count)))
shape_of transcript_only v =
    is_some v.segment_count
    && (not (is_some v.media_format)
        && (not (is_some v.channel_count) && not (is_some v.sample_rate_hz)))

unfoldable pub shape_matches_kind : UploadValidationSummary → Bool
shape_matches_kind v = shape_of v.kind v

pub record UploadStateEvent : Type 0 where
  pub event_id : String
  pub state : UploadState
  pub attempt_number : ℕ
  pub diagnostic_code : Option String
  pub occurred_at : ℕ

pub record UploadReceipt : Type 0 where
  pub upload_id : String
  pub source_event_id : String
  pub call_id : Option String
  pub submission_kind : UploadKind
  pub content_hash_reference : String
  pub language_hint : String
  pub direction : Direction
  pub captured_at : ℕ
  pub staff_extension : String
  pub principal_id : String
  pub role : DemoRole
  pub state : UploadState
  pub attempt_number : ℕ
  pub diagnostic_code : Option String
  pub retryable : Bool
  pub deletion_confirmed : Option Bool
  pub validation : UploadValidationSummary
  pub created_at : ℕ
  pub updated_at : ℕ
  pub cancelled_at : Option ℕ
  pub deleted_at : Option ℕ
  pub call_path : Option String
  pub report_path : Option String
  pub history : List UploadStateEvent

-- The receipt of an analyzed upload has a call, and that of a cancelled one a time.
abbrev has_metadata : UploadState → (call_id : Option String) → (cancelled_at : Option ℕ) → Bool
has_metadata analyzed call_id cancelled_at = is_some call_id
has_metadata cancelled call_id cancelled_at = is_some cancelled_at
has_metadata _ call_id cancelled_at = true

unfoldable pub terminal_metadata_is_consistent : UploadReceipt → Bool
terminal_metadata_is_consistent r =
    has_metadata r.state r.call_id r.cancelled_at
    && (not (is_some r.call_path) || is_some r.call_id)
