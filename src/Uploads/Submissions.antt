-- ===== src/Uploads/Submissions.antt =====
-- `create` of `ManualUploadRepository`: a submission is looked up, then inserted. Other transactions
-- may come between: the tables when it is looked up and when it is inserted are two arguments.
use phone_law.Prelude.{
  ℕ, ◌+◌, String, Bool, true, false, ◌&&◌, ◌||◌, not, Option, none, some, List, ◌∷◌, ◌==◌,
  if◌then◌else◌, any,
}
use phone_law.Prelude.Outcome.{
  Result, Checked, ok, err, ◌>>=◌, ◌andthen◌, conflict, integrity_error, Exception,
}
use phone_law.Policy.{DemoPrincipal}
use phone_law.Uploads.Contracts.{
  UploadKind, UploadMetadata, UploadValidationSummary, received, validating, ready,
}
use phone_law.Uploads.Texts.{source_event_identifier}
use phone_law.Uploads.Receipts.{
  UploadRow, Uploads, UploadSources, StoredUpload, satisfies_checks, by_submission, by_content,
}
use phone_law.Uploads.Repository.{adapter_version, event_of, insert_event, read_back}

-- The arguments of `create`, with the identifiers and the time that it generates.
pub record Submission : Type 0 where
  pub metadata : UploadMetadata
  pub kind : UploadKind
  pub content_fingerprint : String
  pub validation : UploadValidationSummary
  pub principal : DemoPrincipal
  pub object_id : Option String
  pub artifact_id : Option String
  pub upload_id : String
  pub received_id : String
  pub validating_id : String
  pub ready_id : String
  pub now : ℕ

pub record CreateReceiptResult : Type 0 where
  pub stored : StoredUpload
  pub duplicate : Bool

-- `values`
abbrev pub new_row : Submission → UploadRow
new_row s = record {
  id = s.upload_id;
  client_submission_id = s.metadata.client_submission_id;
  source_event_id = source_event_identifier s.upload_id;
  call_id = none;
  submission_kind = s.kind;
  content_fingerprint = s.content_fingerprint;
  language_hint = s.metadata.language_hint;
  direction = s.metadata.direction;
  captured_at = s.metadata.captured_at;
  staff_extension = s.metadata.staff_extension;
  principal_id = s.principal.principal_id;
  role = s.principal.role;
  state = ready;
  attempt_number = 0;
  diagnostic_code = none;
  retryable = false;
  object_id = s.object_id;
  artifact_id = s.artifact_id;
  validation_summary = some s.validation;
  deletion_confirmed = none;
  adapter_version = adapter_version;
  created_at = s.now;
  updated_at = s.now + 2;
  cancelled_at = none;
  deleted_at = none;
}

-- The unique constraints of the table.
abbrev pub is_taken : UploadRow → List UploadRow → Bool
is_taken row receipts =
    any (λ r. r.id == row.id) receipts
    || (any (λ r. r.client_submission_id == row.client_submission_id) receipts
        || (any (λ r. r.content_fingerprint == row.content_fingerprint) receipts
            || any (λ r. r.source_event_id == row.source_event_id) receipts))

unfoldable pub insert_receipt : UploadRow → Uploads → Checked × Uploads
insert_receipt row t =
    if not (is_taken row t.receipts) && satisfies_checks row
    then (ok tt, record t { receipts = row ∷ t.receipts })
    else (err (integrity_error "manual_upload_receipts"), t)

-- The receipt and its first three events.
unfoldable pub insert_upload : Submission → Uploads → Checked × Uploads
unfolding insert_receipt insert_event
insert_upload s t =
    insert_receipt (new_row s) t
    andthen (λ _. insert_event (event_of s.received_id s.upload_id received 0 none s.now))
    andthen (λ _. insert_event (event_of s.validating_id s.upload_id validating 0 none (s.now + 1)))
    andthen (λ _. insert_event (event_of s.ready_id s.upload_id ready 0 none (s.now + 2)))

module _ (sources : UploadSources) where
  abbrev pub content_duplicate : Option StoredUpload → Result (Option CreateReceiptResult)
  content_duplicate none = ok none
  content_duplicate (some stored) = ok (some (record { stored = stored; duplicate = true }))

  abbrev pub submission_duplicate :
      Submission → Uploads → Option StoredUpload → Result (Option CreateReceiptResult)
  submission_duplicate s t none = by_content sources s.content_fingerprint t >>= content_duplicate
  submission_duplicate s t (some stored) =
      if stored.content_fingerprint == s.content_fingerprint
      then ok (some (record { stored = stored; duplicate = true }))
      else err (conflict "submission_content_conflict")

  -- The upload that the submission repeats, by its identifier, then by its content.
  unfoldable pub duplicate : Submission → Uploads → Result (Option CreateReceiptResult)
  unfolding by_content by_submission
  duplicate s t =
      by_submission sources s.metadata.client_submission_id t >>= submission_duplicate s t

  abbrev pub raced : Exception → Result (Option CreateReceiptResult) → Result CreateReceiptResult
  raced e (err e') = err e'
  raced e (ok none) = err e
  raced e (ok (some r)) = ok r

  abbrev pub inserted :
      Submission → Uploads → Checked × Uploads → Result CreateReceiptResult × Uploads
  inserted s before (err (integrity_error table), t) =
      (raced (integrity_error table) (duplicate s before), before)
  inserted s before (err e, t) = (err e, before)
  inserted s before (ok _, t) = (
    read_back sources s.upload_id t
        >>= (λ stored. ok (record { stored = stored; duplicate = false })),
    t,
  )

  abbrev pub create_unless :
      Submission
      → Uploads
      → Result (Option CreateReceiptResult)
      → Result CreateReceiptResult × Uploads
  create_unless s t (err e) = (err e, t)
  create_unless s t (ok (some r)) = (ok r, t)
  create_unless s t (ok none) = inserted s t (insert_upload s t)

  -- `create`: the first tables are those that are looked up, the second those that are written.
  unfoldable pub create : Submission → Uploads → Uploads → Result CreateReceiptResult × Uploads
  unfolding duplicate insert_upload read_back
  create s looked_up t = create_unless s t (duplicate s looked_up)
