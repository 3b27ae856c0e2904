-- ===== src/Uploads/Repository.antt =====
-- The methods of `ManualUploadRepository`. A method takes the tables and returns them with its
-- result, since what a transaction has written stays when reading it back raises. Times and
-- identifiers are arguments. `SubmissionConflictError` and `UploadStateConflictError` are `conflict`.
use phone_law.Prelude.{
  ℕ, ◌+◌, String, Bool, true, false, ◌&&◌, ◌||◌, not, Option, none, some, ◌∷◌, ◌==◌, leb, is_some,
  if◌then◌else◌, find, any, all, update_where,
}
use phone_law.Prelude.Outcome.{
  Result, Checked, ok, err, ◌>>=◌, ◌andthen◌, in_transaction, or_raise, conflict, lookup_error,
  value_error, runtime_error, integrity_error, no_result,
}
use phone_law.Uploads.Contracts.{
  UploadState, ready, processing, analyzed, transcription_failed, analysis_failed, cancelled,
  deletion_failed,
}
use phone_law.Uploads.Receipts.{
  UploadRow, UploadEventRow, Uploads, UploadSources, StoredUpload, satisfies_checks, has_receipt,
  history, stored, get,
}

abbrev pub adapter_version : String
adapter_version = "manual-upload-local-v1"

-- UPDATE … WHERE id = …, with the check constraints of the rows written.
unfoldable pub update_receipt : String → (UploadRow → UploadRow) → Uploads → Checked × Uploads
update_receipt upload_id f t =
    let rows = update_where (λ r. r.id == upload_id) f t.receipts in
    if all (λ r. not (r.id == upload_id) || satisfies_checks r) rows
    then (ok tt, record t { receipts = rows })
    else (err (integrity_error "manual_upload_receipts"), t)

-- `_insert_event`, with the constraints of the row.
unfoldable pub insert_event : UploadEventRow → Uploads → Checked × Uploads
insert_event e t =
    if not (any (λ d. d.id == e.id) t.events)
      && (has_receipt e.upload_id t.receipts && leb e.attempt_number 3)
    then (ok tt, record t { events = e ∷ t.events })
    else (err (integrity_error "manual_upload_state_events"), t)

-- The row of a receipt and the event that records it.
unfoldable pub write :
    String → (UploadRow → UploadRow) → UploadEventRow → Uploads → Checked × Uploads
unfolding update_receipt insert_event
write upload_id f e t = update_receipt upload_id f t andthen (λ _. insert_event e)

abbrev pub may_process : (retryable : Bool) → UploadState → Bool
may_process retryable ready = true
may_process retryable transcription_failed = retryable
may_process retryable analysis_failed = retryable
may_process retryable _ = false

abbrev pub is_analyzed : UploadState → Bool
is_analyzed analyzed = true
is_analyzed _ = false

abbrev pub is_processing : UploadState → Bool
is_processing processing = true
is_processing _ = false

abbrev pub is_ready : UploadState → Bool
is_ready ready = true
is_ready _ = false

abbrev pub is_cancelled : UploadState → Bool
is_cancelled cancelled = true
is_cancelled _ = false

abbrev pub is_completion : UploadState → Bool
is_completion analyzed = true
is_completion transcription_failed = true
is_completion analysis_failed = true
is_completion deletion_failed = true
is_completion _ = false

abbrev is_deleted : Option Bool → Bool
is_deleted (some true) = true
is_deleted _ = false

-- What `complete` is called with.
pub record Completion : Type 0 where
  pub state : UploadState
  pub diagnostic_code : Option String
  pub retryable : Bool
  pub deletion_confirmed : Option Bool
  pub deleted_at : Option ℕ

abbrev pub event_of :
    (event_id upload_id : String)
    → UploadState
    → (attempt_number : ℕ) → Option String
    → ℕ
    → UploadEventRow
event_of event_id upload_id state attempt_number diagnostic_code now = record {
  id = event_id;
  upload_id = upload_id;
  state = state;
  attempt_number = attempt_number;
  diagnostic_code = diagnostic_code;
  occurred_at = now;
}

abbrev pub claimed : (attempt_number now : ℕ) → UploadRow → UploadRow
claimed attempt_number now r = record r {
  state = processing;
  attempt_number = attempt_number;
  diagnostic_code = none;
  retryable = false;
  updated_at = now;
}

abbrev pub completed_with : Completion → ℕ → UploadRow → UploadRow
completed_with c now r = record r {
  state = c.state;
  diagnostic_code = c.diagnostic_code;
  retryable = c.retryable;
  deletion_confirmed = c.deletion_confirmed;
  deleted_at = c.deleted_at;
  object_id = if is_deleted c.deletion_confirmed then none else r.object_id;
  updated_at = now;
}

abbrev pub cancelled_at_time : ℕ → UploadRow → UploadRow
cancelled_at_time now r = record r { state = cancelled; cancelled_at = some now; updated_at = now }

abbrev pub deletion_code : String
deletion_code = "temporary_media_deletion_failed"

abbrev pub deletion_confirmed_at : ℕ → UploadRow → UploadRow
deletion_confirmed_at now r = record r {
  deletion_confirmed = some true;
  deleted_at = some now;
  object_id = none;
  updated_at = now;
}

abbrev pub deletion_failed_at : ℕ → UploadRow → UploadRow
deletion_failed_at now r = record r {
  deletion_confirmed = some false;
  deleted_at = none;
  updated_at = now;
  state = deletion_failed;
  diagnostic_code = some deletion_code;
  retryable = false;
}

abbrev pub receipt_with : String → Uploads → Option UploadRow
receipt_with upload_id t = find (λ r. r.id == upload_id) t.receipts

-- `attach_call`, for a receipt that has no call yet.
unfoldable pub attach_call : (upload_id call_id : String) → ℕ → Uploads → Checked × Uploads
unfolding update_receipt
attach_call upload_id call_id now t = in_transaction t (
    update_receipt upload_id
      (λ r. if is_some r.call_id then r else record r { call_id = some call_id; updated_at = now })
      t)

module _ (sources : UploadSources) where
  -- The receipt is read back in a transaction of its own.
  unfoldable pub read_back : String → Uploads → Result StoredUpload
  unfolding get
  read_back upload_id t =
      get sources upload_id t
      >>= (λ s. or_raise s (runtime_error "manual_upload_receipt_unavailable"))

  abbrev pub claim :
      (event_id upload_id : String) → ℕ → UploadRow → Uploads → Result StoredUpload × Uploads
  claim event_id upload_id now row t =
      in_transaction t (
        write upload_id (claimed (row.attempt_number + 1) now)
          (event_of event_id upload_id processing (row.attempt_number + 1) none now) t)
      andthen (λ _ t'. (read_back upload_id t', t'))

  abbrev pub claim_found :
      (event_id upload_id : String) → ℕ → Option UploadRow → Uploads → Result StoredUpload × Uploads
  claim_found event_id upload_id now none t = (err (lookup_error "upload_receipt_not_found"), t)
  claim_found event_id upload_id now (some row) t =
      if is_analyzed row.state
      then (stored sources row (history sources upload_id t), t)
      else if may_process row.retryable row.state
      then claim event_id upload_id now row t
      else (err (conflict "upload_not_processable"), t)

  unfoldable pub claim_processing :
      (event_id upload_id : String) → ℕ → Uploads → Result StoredUpload × Uploads
  unfolding read_back write stored
  claim_processing event_id upload_id now t =
      claim_found event_id upload_id now (receipt_with upload_id t) t

  abbrev pub complete_found :
      (event_id upload_id : String)
      → Completion
      → ℕ
      → Option UploadRow
      → Uploads
      → Result StoredUpload × Uploads
  complete_found event_id upload_id c now none t =
      (err (lookup_error "upload_receipt_not_found"), t)
  complete_found event_id upload_id c now (some row) t =
      if is_processing row.state
      then in_transaction t (
          write upload_id (completed_with c now)
            (event_of event_id upload_id c.state row.attempt_number c.diagnostic_code now) t)
        andthen (λ _ t'. (read_back upload_id t', t'))
      else (err (conflict "upload_not_processing"), t)

  unfoldable pub complete :
      (event_id upload_id : String) → Completion → ℕ → Uploads → Result StoredUpload × Uploads
  unfolding read_back write
  complete event_id upload_id c now t =
      if is_completion c.state
      then complete_found event_id upload_id c now (receipt_with upload_id t) t
      else (err (value_error "unsupported upload completion state"), t)

  -- With whether the call has cancelled the upload.
  abbrev pub cancel_found :
      (event_id upload_id : String)
      → ℕ
      → Option UploadRow
      → Uploads
      → Result (StoredUpload × Bool) × Uploads
  cancel_found event_id upload_id now none t = (err (lookup_error "upload_receipt_not_found"), t)
  cancel_found event_id upload_id now (some row) t =
      if is_cancelled row.state
      then (stored sources row (history sources upload_id t) >>= (λ s. ok (s, false)), t)
      else if is_ready row.state
      then in_transaction t (
          write upload_id (cancelled_at_time now) (event_of event_id upload_id cancelled 0 none now)
            t)
        andthen (λ _ t'. (read_back upload_id t' >>= (λ s. ok (s, true)), t'))
      else (err (conflict "processing_already_started"), t)

  unfoldable pub cancel :
      (event_id upload_id : String) → ℕ → Uploads → Result (StoredUpload × Bool) × Uploads
  unfolding read_back write stored
  cancel event_id upload_id now t = cancel_found event_id upload_id now (receipt_with upload_id t) t

  abbrev pub confirm_found :
      (event_id upload_id : String)
      → (confirmed : Bool) → ℕ
      → Option UploadRow
      → Uploads
      → Result StoredUpload × Uploads
  confirm_found event_id upload_id confirmed now none t = (err no_result, t)
  confirm_found event_id upload_id true now (some row) t =
      in_transaction t (update_receipt upload_id (deletion_confirmed_at now) t)
      andthen (λ _ t'. (read_back upload_id t', t'))
  confirm_found event_id upload_id false now (some row) t =
      in_transaction t (
        write upload_id (deletion_failed_at now)
          (event_of event_id upload_id deletion_failed row.attempt_number (some deletion_code) now)
          t)
      andthen (λ _ t'. (read_back upload_id t', t'))

  unfoldable pub confirm_cancel_deletion :
      (event_id upload_id : String)
      → (confirmed : Bool) → ℕ
      → Uploads
      → Result StoredUpload × Uploads
  unfolding read_back write update_receipt
  confirm_cancel_deletion event_id upload_id confirmed now t =
      confirm_found event_id upload_id confirmed now (receipt_with upload_id t) t
