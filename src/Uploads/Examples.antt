-- ===== src/Uploads/Examples.antt =====
-- Uploads on concrete tables.
use phone_law.Prelude.{ℕ, String, ◌≡◌, refl, sym, ap, true, false, none, some, [], ◌∷◌}
use phone_law.Prelude.Outcome.{ok, err, conflict, integrity_error}
use phone_law.Policy.{operations}
use phone_law.Contracts.Events.{inbound}
use phone_law.Uploads.Contracts.{
  UploadState, UploadValidationSummary, UploadStateEvent, synthetic_audio, received, validating,
  ready, processing, shape_matches_kind, terminal_metadata_is_consistent,
}
use phone_law.Uploads.Receipts.{
  Uploads, UploadSources, StoredUpload, stored, one, by_submission, by_content, get,
}
use phone_law.Uploads.Repository.{
  event_of, claimed, is_analyzed, update_receipt, insert_event, write, read_back, claim_processing,
  cancel,
}
use phone_law.Uploads.Submissions.{
  Submission, CreateReceiptResult, new_row, insert_receipt, insert_upload, duplicate, create,
}
use phone_law.Uploads.Paths.{IsSoundUploads}
use phone_law.Uploads.Creation.{with_upload}
use phone_law.Uploads.Sequences.{Reachable, empty, created, Reachable-IsSound}
use phone_law.Uploads.Content.{create-content}
use phone_law.Uploads.Exclusion.{claim_processing-excludes, create-buried}

abbrev sample_sources : UploadSources
sample_sources = record { id_before = λ a b. false; firm_date = λ time. "2026-09-13" }

abbrev sample_summary : UploadValidationSummary
sample_summary = record {
  kind = synthetic_audio;
  contract_version = "v1";
  byte_size = 1024;
  duration_seconds = 30;
  media_format = some "wav";
  channel_count = some 1;
  sample_rate_hz = some 16000;
  segment_count = none;
}

abbrev sample : Submission
sample = record {
  metadata = record {
    client_submission_id = "submission-1";
    direction = inbound;
    captured_at = 50;
    language_hint = "en";
    staff_extension = "SYN-001";
  };
  kind = synthetic_audio;
  content_fingerprint = "abcdefabcdefabcdef";
  validation = sample_summary;
  principal = record { principal_id = "demo-operations"; role = operations };
  object_id = some "object-1";
  artifact_id = some "artifact-1";
  upload_id = "upload-1";
  received_id = "event-1";
  validating_id = "event-2";
  ready_id = "event-3";
  now = 100;
}

abbrev no_uploads : Uploads
no_uploads = record { receipts = []; events = []; tombstones = [] }

abbrev sample_uploads : Uploads
sample_uploads = with_upload sample no_uploads

abbrev claimed_uploads : Uploads
claimed_uploads = record {
  receipts = claimed 1 200 (new_row sample) ∷ [];
  events = event_of "event-4" "upload-1" processing 1 none 200 ∷ sample_uploads.events;
  tombstones = [];
}

abbrev sample_event : String → UploadState → ℕ → ℕ → UploadStateEvent
sample_event id state attempt_number time = record {
  event_id = id;
  state = state;
  attempt_number = attempt_number;
  diagnostic_code = none;
  occurred_at = time;
}

abbrev claimed_upload : StoredUpload
claimed_upload = record {
  receipt = record {
    upload_id = "upload-1";
    source_event_id = "upload-event-upload-1";
    call_id = none;
    submission_kind = synthetic_audio;
    content_hash_reference = "sha256:abcdefabcdef";
    language_hint = "en";
    direction = inbound;
    captured_at = 50;
    staff_extension = "SYN-001";
    principal_id = "demo-operations";
    role = operations;
    state = processing;
    attempt_number = 1;
    diagnostic_code = none;
    retryable = false;
    deletion_confirmed = none;
    validation = sample_summary;
    created_at = 100;
    updated_at = 200;
    cancelled_at = none;
    deleted_at = none;
    call_path = none;
    report_path = none;
    history =
        sample_event "event-1" received 0 100
        ∷ sample_event "event-2" validating 0 101
        ∷ sample_event "event-3" ready 0 102
        ∷ sample_event "event-4" processing 1 200
        ∷ [];
  };
  client_submission_id = "submission-1";
  content_fingerprint = "abcdefabcdefabcdef";
  object_id = some "object-1";
  artifact_id = some "artifact-1";
}

claim_sample :
    claim_processing sample_sources "event-4" "upload-1" 200 sample_uploads
    ≡ (ok claimed_upload, claimed_uploads)
unfolding claim_processing write update_receipt insert_event read_back get one stored
    shape_matches_kind terminal_metadata_is_consistent
claim_sample = refl

-- The same content under another submission identifier, after retention.
abbrev resubmission : Submission
resubmission = record sample {
  metadata = record sample.metadata { client_submission_id = "submission-2" };
  upload_id = "upload-2";
}

abbrev buried_uploads : Uploads
buried_uploads = record sample_uploads { tombstones = "upload-1" ∷ [] }

Reachable-IsSound_example :
    IsSoundUploads
      (claim_processing sample_sources "event-4" "upload-1" 200
        (create sample_sources sample no_uploads no_uploads).1).1
Reachable-IsSound_example = Reachable-IsSound sample_sources (
    Reachable.claimed "event-4" "upload-1" 200
      (create sample_sources sample no_uploads no_uploads).1
      (created sample no_uploads no_uploads empty))

claim_processing-excludes_example :
    (claim_processing sample_sources "event-5" "upload-1" 300 claimed_uploads
      ≡ (err (conflict "upload_not_processable"), claimed_uploads))
    × (cancel sample_sources "event-5" "upload-1" 300 claimed_uploads
        ≡ (err (conflict "processing_already_started"), claimed_uploads))
claim_processing-excludes_example =
    claim_processing-excludes sample_sources "event-4" "upload-1" 200 sample_uploads claimed_uploads
      claimed_upload
      (λ row h. ap (λ o. elim o [ none ↦ false | some r ↦ is_analyzed r.state ]) (sym h))
      claim_sample "event-5" 300

create-buried_example :
    create sample_sources resubmission buried_uploads buried_uploads
    ≡ (err (integrity_error "manual_upload_receipts"), buried_uploads)
create-buried_example = create-buried sample_sources resubmission buried_uploads refl refl

-- The sample submitted again, after its claim.
abbrev resubmitted : CreateReceiptResult
resubmitted = record { stored = claimed_upload; duplicate = true }

create_repeated :
    create sample_sources sample no_uploads claimed_uploads ≡ (ok resubmitted, claimed_uploads)
unfolding create duplicate insert_upload insert_receipt by_submission by_content one stored
    shape_matches_kind terminal_metadata_is_consistent
create_repeated = refl

create-content_example : resubmitted.stored.content_fingerprint ≡ "abcdefabcdefabcdef"
create-content_example =
    create-content sample_sources sample no_uploads claimed_uploads claimed_uploads resubmitted
      create_repeated
