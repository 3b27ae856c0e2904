-- ===== src/Uploads/Receipts.antt =====
-- The tables of uploads (packages/database/review_schema.py), newest row first, with the constraints
-- of apps/api/migrations/versions/0005_manual_upload_local.py; and how a row is read as a receipt.
use phone_law.Prelude.{
  ℕ, String, Bool, true, false, ◌&&◌, ◌||◌, not, Option, none, some, List, ◌==◌, leb, eqb, ltb,
  is_some, find, any, select, map, order_by,
}
use phone_law.Prelude.Outcome.{Result, ok, ◌>>=◌, require, or_raise, value_error}
use phone_law.Policy.{DemoRole, reviewer, administrator, operations}
use phone_law.Contracts.Events.{Direction}
use phone_law.Uploads.Contracts.{
  UploadKind, UploadState, UploadValidationSummary, UploadStateEvent, UploadReceipt,
  synthetic_audio, transcript_only, shape_matches_kind, terminal_metadata_is_consistent,
}
use phone_law.Uploads.Texts.{content_hash_reference, call_path, report_path}

-- `manual_upload_receipts`; a validation summary that retention has destroyed is `none`.
pub record UploadRow : Type 0 where
  pub id : String
  pub client_submission_id : String
  pub source_event_id : String
  pub call_id : Option String
  pub submission_kind : UploadKind
  pub content_fingerprint : String
  pub language_hint : String
  pub direction : Direction
  pub captured_at : ℕ
  pub staff_extension : String
  pub principal_id : String
  pub role : DemoRole
  pub state : UploadState
  pub attempt_number : ℕ
  pub diagnostic_code : Option String
  pub retryable : Bool
  pub object_id : Option String
  pub artifact_id : Option String
  pub validation_summary : Option UploadValidationSummary
  pub deletion_confirmed : Option Bool
  pub adapter_version : String
  pub created_at : ℕ
  pub updated_at : ℕ
  pub cancelled_at : Option ℕ
  pub deleted_at : Option ℕ

-- `manual_upload_state_events`
pub record UploadEventRow : Type 0 where
  pub id : String
  pub upload_id : String
  pub state : UploadState
  pub attempt_number : ℕ
  pub diagnostic_code : Option String
  pub occurred_at : ℕ

-- The tables, with the resource identifiers of the tombstones of receipts.
pub record Uploads : Type 0 where
  pub receipts : List UploadRow
  pub events : List UploadEventRow
  pub tombstones : List String

abbrev may_submit : DemoRole → Bool
may_submit reviewer = false
may_submit administrator = true
may_submit operations = true

abbrev is_confirmed : Option Bool → Bool
is_confirmed (some true) = true
is_confirmed _ = false

abbrev object_shape : UploadKind → UploadRow → Bool
object_shape synthetic_audio row =
    is_some row.artifact_id && (is_some row.object_id || is_confirmed row.deletion_confirmed)
object_shape transcript_only row = not (is_some row.object_id) && not (is_some row.artifact_id)

-- The check constraints of a row.
abbrev pub satisfies_checks : UploadRow → Bool
satisfies_checks row =
    may_submit row.role && (leb row.attempt_number 3 && object_shape row.submission_kind row)

abbrev pub events_of : String → List UploadEventRow → List UploadEventRow
events_of upload_id events = select (λ e. e.upload_id == upload_id) events

abbrev pub has_receipt : String → List UploadRow → Bool
has_receipt upload_id receipts = any (λ r. r.id == upload_id) receipts

abbrev pub is_buried : String → Uploads → Bool
is_buried upload_id t = any (λ id. id == upload_id) t.tombstones

-- ORDER BY occurred_at, id
abbrev is_earlier_event :
    (id_before : String → String → Bool) → UploadEventRow → UploadEventRow → Bool
is_earlier_event id_before a b =
    ltb a.occurred_at b.occurred_at || (eqb a.occurred_at b.occurred_at && id_before a.id b.id)

abbrev state_event : UploadEventRow → UploadStateEvent
state_event e = record {
  event_id = e.id;
  state = e.state;
  attempt_number = e.attempt_number;
  diagnostic_code = e.diagnostic_code;
  occurred_at = e.occurred_at;
}

-- What comes from outside: the order of texts, and the date of a time in the firm's time zone.
pub record UploadSources : Type 0 where
  pub id_before : String → String → Bool
  pub firm_date : ℕ → String

pub record StoredUpload : Type 0 where
  pub receipt : UploadReceipt
  pub client_submission_id : String
  pub content_fingerprint : String
  pub object_id : Option String
  pub artifact_id : Option String

module _ (sources : UploadSources) where
  abbrev pub history : String → Uploads → List UploadStateEvent
  history upload_id t =
      map state_event (order_by (is_earlier_event sources.id_before) (events_of upload_id t.events))

  abbrev pub receipt_of :
      UploadRow → UploadValidationSummary → List UploadStateEvent → UploadReceipt
  receipt_of row validation events = record {
    upload_id = row.id;
    source_event_id = row.source_event_id;
    call_id = row.call_id;
    submission_kind = row.submission_kind;
    content_hash_reference = content_hash_reference row.content_fingerprint;
    language_hint = row.language_hint;
    direction = row.direction;
    captured_at = row.captured_at;
    staff_extension = row.staff_extension;
    principal_id = row.principal_id;
    role = row.role;
    state = row.state;
    attempt_number = row.attempt_number;
    diagnostic_code = row.diagnostic_code;
    retryable = row.retryable;
    deletion_confirmed = row.deletion_confirmed;
    validation = validation;
    created_at = row.created_at;
    updated_at = row.updated_at;
    cancelled_at = row.cancelled_at;
    deleted_at = row.deleted_at;
    call_path = call_path row.call_id;
    report_path = report_path row.call_id (sources.firm_date row.captured_at);
    history = events;
  }

  -- `_stored`: the contracts are validated again.
  unfoldable pub stored : UploadRow → List UploadStateEvent → Result StoredUpload
  stored row events =
      or_raise row.validation_summary (value_error "validation_summary") >>= (λ validation.
        require (shape_matches_kind validation) (value_error "validation summary is incomplete") (
          let receipt = receipt_of row validation events in
          require (terminal_metadata_is_consistent receipt) (value_error "receipt is inconsistent")
            (ok (record {
              receipt = receipt;
              client_submission_id = row.client_submission_id;
              content_fingerprint = row.content_fingerprint;
              object_id = row.object_id;
              artifact_id = row.artifact_id;
            }))))

  abbrev optional : Result StoredUpload → Result (Option StoredUpload)
  optional r = r >>= (λ s. ok (some s))

  abbrev pub stored_found : Option UploadRow → Uploads → Result (Option StoredUpload)
  stored_found none t = ok none
  stored_found (some row) t = optional (stored row (history row.id t))

  -- `_one`: the row that passes the test and has no tombstone.
  unfoldable pub one : (UploadRow → Bool) → Uploads → Result (Option StoredUpload)
  one condition t = stored_found (find (λ r. condition r && not (is_buried r.id t)) t.receipts) t

  unfoldable pub by_submission : String → Uploads → Result (Option StoredUpload)
  unfolding one
  by_submission submission t = one (λ r. r.client_submission_id == submission) t

  unfoldable pub by_content : String → Uploads → Result (Option StoredUpload)
  unfolding one
  by_content fingerprint t = one (λ r. r.content_fingerprint == fingerprint) t

  unfoldable pub get : String → Uploads → Result (Option StoredUpload)
  unfolding one
  get upload_id t = one (λ r. r.id == upload_id) t
