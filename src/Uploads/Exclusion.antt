-- ===== src/Uploads/Exclusion.antt =====
-- What one method of the upload repository excludes of the next.
use phone_law.Prelude.{
  ℕ, ◌+◌, String, ◌≡◌, refl, ap, ◌∙◌, subst, inl, inr, true, false, ◌||◌, not, Option, none, some,
  ◌==◌, arith, any, all, update_where, find-update_where, find-passes, find-none_hidden, Bool-cases,
  ◌&&◌, Bool,
}
use phone_law.Prelude.Outcome.{
  ok, err, Checked, is_ok, Result, ◌andthen◌, in_transaction, conflict, integrity_error,
}
use phone_law.Uploads.Contracts.{processing}
use phone_law.Uploads.Receipts.{
  UploadRow, UploadEventRow, Uploads, UploadSources, StoredUpload, satisfies_checks, is_buried,
  by_submission, by_content, one,
}
use phone_law.Uploads.Repository.{
  is_analyzed, may_process, claimed, event_of, update_receipt, insert_event, write, receipt_with,
  read_back, claim, claim_found, claim_processing, cancel_found, cancel,
}
use phone_law.Uploads.Submissions.{
  Submission, new_row, is_taken, insert_receipt, insert_upload, duplicate, create_unless, create,
}
use phone_law.Uploads.Paths.{insert_event-ok}

-- The row after it is written.
write-receipt_with :
    (upload_id : String) (f : UploadRow → UploadRow) (e : UploadEventRow) (t t' : Uploads)
    {row : UploadRow}
    → ((r : UploadRow) → (f r).id ≡ r.id)
    → receipt_with upload_id t ≡ some row
    → write upload_id f e t ≡ (ok tt, t')
    → receipt_with upload_id t' ≡ some (f row)
unfolding write update_receipt
write-receipt_with upload_id f e t t' {row} keeps found h =
    let rows = update_where (λ r. r.id == upload_id) f t.receipts in
    let own = find-passes (λ r. r.id == upload_id) t.receipts {x = row} found in
    elim (Bool-cases (all (λ r. not (r.id == upload_id) || satisfies_checks r) rows)) [
      | inr failed ↦ let h' = ap (λ p. is_ok p.0) h in absurd (ground arith)
      | inl passed ↦
          let h₁ : insert_event e (record t { receipts = rows }) ≡ (ok tt, t') = rw passed at h in
          let there = (insert_event-ok e (record t { receipts = rows }) t' h₁).2 in
          subst (λ x. receipt_with upload_id x ≡ some (f row)) there
            (find-update_where (λ r. r.id == upload_id) (λ r. r.id == upload_id) f
                (λ r. ap (λ k. k == upload_id) (keeps r)) t.receipts {x = row} found
              ∙ rw own refl)
    ]

module _ (sources : UploadSources) where
  after_transaction :
      (t : Uploads) (body : Checked × Uploads) (read : Uploads → Result StoredUpload)
      {s : StoredUpload} {t' : Uploads}
      → (in_transaction t body andthen (λ _ x. (read x, x))) ≡ (ok s, t')
      → body ≡ (ok tt, t')
  after_transaction t (ok u, x) read {s} {t'} h =
      let there : x ≡ t' = ap (λ p. p.1) h in rw there refl
  after_transaction t (err e, x) read h = let h' = ap (λ p. is_ok p.0) h in absurd (ground arith)

  claim_found-receipt_with :
      (event_id upload_id : String) (now : ℕ) (t t' : Uploads) (found : Option UploadRow)
      {s : StoredUpload}
      → receipt_with upload_id t ≡ found
      → ((row : UploadRow) → found ≡ some row → is_analyzed row.state ≡ false)
      → claim_found sources event_id upload_id now found t ≡ (ok s, t')
      → (row : UploadRow) × (receipt_with upload_id t' ≡ some row)
        × (row.state ≡ processing)
        × (row.retryable ≡ false)
  claim_found-receipt_with event_id upload_id now t t' none at open_ h =
      let h' = ap (λ p. is_ok p.0) h in absurd (ground arith)
  claim_found-receipt_with event_id upload_id now t t' (some row) {s} at open_ h =
      elim (Bool-cases (may_process row.retryable row.state)) [
        | inr refused ↦
            let e = open_ row refl in let h' = ap (λ p. is_ok p.0) h in absurd (ground arith)
        | inl may ↦
            let h₁ : claim sources event_id upload_id now row t ≡ (ok s, t') =
              rw (open_ row refl, may) at h in
            let f = claimed (row.attempt_number + 1) now in
            let e = event_of event_id upload_id processing (row.attempt_number + 1) none now in
            let written =
              after_transaction t (write upload_id f e t) (read_back sources upload_id) {s = s}
                {t' = t'} h₁ in
            (
              f row,
              write-receipt_with upload_id f e t t' {row = row} (λ r. refl) at written,
              refl,
              refl,
            )
      ]

  claim_found-processing :
      (event_id upload_id : String) (now : ℕ) (t : Uploads) (row : UploadRow)
      → row.state ≡ processing
      → (claim_found sources event_id upload_id now (some row) t
          ≡ (err (conflict "upload_not_processable"), t))
        × (cancel_found sources event_id upload_id now (some row) t
            ≡ (err (conflict "processing_already_started"), t))
  claim_found-processing event_id upload_id now t row h = (rw h refl, rw h refl)

  -- Once a claim of a receipt that was not analyzed returns, another claim and a cancellation of the
  -- receipt raise and change nothing, whatever their times and identifiers are.
  pub claim_processing-excludes :
      (event_id upload_id : String) (now : ℕ) (t t' : Uploads) (s : StoredUpload)
      → ((row : UploadRow) → receipt_with upload_id t ≡ some row → is_analyzed row.state ≡ false)
      → claim_processing sources event_id upload_id now t ≡ (ok s, t')
      → (later_id : String) (later : ℕ)
      → (claim_processing sources later_id upload_id later t'
          ≡ (err (conflict "upload_not_processable"), t'))
        × (cancel sources later_id upload_id later t'
            ≡ (err (conflict "processing_already_started"), t'))
  unfolding claim_processing cancel
  claim_processing-excludes event_id upload_id now t t' s open_ h later_id later =
      let (row, found, state, retryable) =
        claim_found-receipt_with event_id upload_id now t t' (receipt_with upload_id t) {s = s} refl
          open_ h in
      rw found (claim_found-processing later_id upload_id later t' row state)

  -- Where each receipt of the same content or of the same submission identifier has a tombstone, none
  -- of them is found.
  duplicate-none :
      (s : Submission) (t : Uploads)
      → all
          (λ r.
            not (
              r.content_fingerprint == s.content_fingerprint
              || r.client_submission_id == s.metadata.client_submission_id)
            || is_buried r.id t)
          t.receipts
        ≡ true
      → duplicate sources s t ≡ ok none
  unfolding duplicate by_submission by_content one
  duplicate-none s t buried =
      let q : UploadRow → Bool = λ r.
        r.content_fingerprint == s.content_fingerprint
        || r.client_submission_id == s.metadata.client_submission_id in
      let no_submission =
        find-none_hidden
          (λ r. r.client_submission_id == s.metadata.client_submission_id && not (is_buried r.id t))
          q (λ r. is_buried r.id t) t.receipts (λ r m. (ground arith, ground arith)) buried in
      let no_content =
        find-none_hidden
          (λ r. r.content_fingerprint == s.content_fingerprint && not (is_buried r.id t)) q
          (λ r. is_buried r.id t) t.receipts (λ r m. (ground arith, ground arith)) buried in
      rw (no_submission, no_content) refl

  -- Content that a receipt of the table has, where retention has put a tombstone on each receipt with
  -- this content or with the same submission identifier, cannot be submitted again: the receipts are
  -- not found but still hold the unique fingerprint, and `create` lets the integrity error through
  -- and changes nothing.
  pub create-buried :
      (s : Submission) (t : Uploads)
      → any (λ r. r.content_fingerprint == s.content_fingerprint) t.receipts ≡ true
      → all
          (λ r.
            not (
              r.content_fingerprint == s.content_fingerprint
              || r.client_submission_id == s.metadata.client_submission_id)
            || is_buried r.id t)
          t.receipts
        ≡ true
      → create sources s t t ≡ (err (integrity_error "manual_upload_receipts"), t)
  unfolding create insert_upload insert_receipt
  create-buried s t there buried =
      let hidden = duplicate-none s t buried in
      let taken : is_taken (new_row s) t.receipts ≡ true = ground arith in
      let step : create_unless sources s t (ok none)
          ≡ (err (integrity_error "manual_upload_receipts"), t) =
        rw (taken, hidden) refl in
      rw hidden step
