-- ===== src/Uploads/Content.antt =====
-- The content of the receipt that `create` returns.
use phone_law.Prelude.{
  String, ◌≡◌, refl, sym, ap, ◌∙◌, inl, inr, Bool, true, false, ◌&&◌, not, Option, none, some, List,
  [], ◌∷◌, ◌==◌, eq_iff, arith, any, any-find, find, find-passes, Bool-cases, Option-cases,
}
use phone_law.Prelude.Outcome.{
  ok, err, ok_inj, Checked, is_ok, Result, >>=-ok, require-ok, or_raise, value_error, runtime_error,
  integrity_error, Exception,
}
use phone_law.Uploads.Contracts.{
  UploadStateEvent, shape_matches_kind, terminal_metadata_is_consistent,
}
use phone_law.Uploads.Receipts.{
  UploadRow, Uploads, UploadSources, StoredUpload, is_buried, history, receipt_of, stored,
  stored_found, one, by_submission, by_content, get,
}
use phone_law.Uploads.Repository.{read_back}
use phone_law.Uploads.Submissions.{
  Submission, CreateReceiptResult, new_row, is_taken, insert_upload, content_duplicate,
  submission_duplicate, duplicate, raced, inserted, create_unless, create,
}
use phone_law.Uploads.Creation.{with_upload, insert_upload-ok}

any-and_left :
    (p q : UploadRow → Bool) (rows : List UploadRow)
    → any p rows ≡ false
    → any (λ r. p r && q r) rows ≡ false
any-and_left p q [] h = refl
any-and_left p q (r ∷ rows) h = ground (arith, any-and_left p q rows)

module _ (sources : UploadSources) where
  stored-content :
      (row : UploadRow) (events : List UploadStateEvent) {x : StoredUpload}
      → stored sources row events ≡ ok x
      → row.content_fingerprint ≡ x.content_fingerprint
  unfolding stored
  stored-content row events {x} h =
      let (v, good, h₁) =
        >>=-ok (or_raise row.validation_summary (value_error "validation_summary")) _ h in
      let (shaped, h₂) = require-ok (shape_matches_kind v) _ _ h₁ in
      let (consistent, h₃) =
        require-ok (terminal_metadata_is_consistent (receipt_of sources row v events)) _ _ h₂ in
      ap (λ s. s.content_fingerprint) (ok_inj h₃)

  stored_found-content :
      (found : Option UploadRow) (t : Uploads) {x : StoredUpload}
      → stored_found sources found t ≡ ok (some x)
      → (row : UploadRow) × (found ≡ some row) × (row.content_fingerprint ≡ x.content_fingerprint)
  stored_found-content none t h = let h' = ok_inj h in absurd (ground arith)
  stored_found-content (some row) t {x} h =
      let (y, read, e) = >>=-ok (stored sources row (history sources row.id t)) _ h in
      let same : some y ≡ some x = ok_inj e in
      let same' : y ≡ x = cc in
      (
        row,
        refl,
        stored-content row (history sources row.id t) {x = y} read
            ∙ ap (λ s. s.content_fingerprint) same',
      )

  content_duplicate-content :
      (o : Option StoredUpload) {r : CreateReceiptResult}
      → content_duplicate sources o ≡ ok (some r)
      → o ≡ some r.stored
  content_duplicate-content none h = let h' = ok_inj h in absurd (ground arith)
  content_duplicate-content (some x) {r} h =
      ap (λ o. elim o [ none ↦ none | some d ↦ some d.stored ]) (ok_inj h)

  by_content-content :
      (fingerprint : String) (t : Uploads) {x : StoredUpload}
      → by_content sources fingerprint t ≡ ok (some x)
      → x.content_fingerprint ≡ fingerprint
  unfolding by_content one
  by_content-content fingerprint t {x} h =
      let (row, found, same) = stored_found-content _ t {x = x} h in
      let passes =
        find-passes (λ r. r.content_fingerprint == fingerprint && not (is_buried r.id t)) t.receipts
          {x = row} found in
      let own : (row.content_fingerprint == fingerprint) ≡ true = ground arith in
      sym same ∙ (eq_iff row.content_fingerprint fingerprint).0 own

  submission_duplicate-content :
      (s : Submission) (t : Uploads) (o : Option StoredUpload) {r : CreateReceiptResult}
      → submission_duplicate sources s t o ≡ ok (some r)
      → r.stored.content_fingerprint ≡ s.content_fingerprint
  submission_duplicate-content s t none {r} h =
      let (o, read, e) =
        >>=-ok (by_content sources s.content_fingerprint t) (content_duplicate sources) h in
      let found = content_duplicate-content o {r = r} e in
      by_content-content s.content_fingerprint t {x = r.stored} (read ∙ ap (λ x. ok x) found)
  submission_duplicate-content s t (some x) {r} h =
      elim (Bool-cases (x.content_fingerprint == s.content_fingerprint)) [
        | inr other ↦ absurd (ground arith)
        | inl same ↦
            let e : Result.ok (some (record { stored = x; duplicate = true })) ≡ ok (some r) =
              rw same at h in
            let there : some x ≡ some r.stored =
              ap (λ o. elim o [ none ↦ none | some d ↦ some d.stored ]) (ok_inj e) in
            let there' : x ≡ r.stored = cc in
            ap (λ y. y.content_fingerprint) (sym there')
            ∙ (eq_iff x.content_fingerprint s.content_fingerprint).0 same
      ]

  duplicate-content :
      (s : Submission) (t : Uploads) {r : CreateReceiptResult}
      → duplicate sources s t ≡ ok (some r)
      → r.stored.content_fingerprint ≡ s.content_fingerprint
  unfolding duplicate
  duplicate-content s t {r} h =
      let (o, read, e) =
        >>=-ok (by_submission sources s.metadata.client_submission_id t)
          (submission_duplicate sources s t) h in
      submission_duplicate-content s t o {r = r} e

  -- The row of the new identifier is the new one.
  new_row-found :
      (s : Submission) (t : Uploads) {row : UploadRow}
      → is_taken (new_row s) t.receipts ≡ false
      → find
          (λ r. r.id == s.upload_id && not (is_buried r.id (with_upload s t)))
          (with_upload s t).receipts
        ≡ some row
      → row.content_fingerprint ≡ s.content_fingerprint
  new_row-found s t {row} free h =
      let p : UploadRow → Bool =
        λ r. r.id == s.upload_id && not (is_buried r.id (with_upload s t)) in
      elim (Bool-cases (p (new_row s))) [
        | inl first ↦
            let e : some (new_row s) ≡ some row = rw first at h in
            ap (λ o. elim o [ none ↦ "" | some r ↦ r.content_fingerprint ]) (sym e)
        | inr later ↦
            let e : find p t.receipts ≡ some row = rw later at h in
            let there : any p t.receipts ≡ true = any-find p t.receipts {x = row} e in
            let apart : any p t.receipts ≡ false =
              any-and_left (λ r. r.id == s.upload_id) (λ r. not (is_buried r.id (with_upload s t)))
                t.receipts (ground arith) in
            absurd (ground arith)
      ]

  read_back-content :
      (s : Submission) (t : Uploads) {x : StoredUpload}
      → is_taken (new_row s) t.receipts ≡ false
      → read_back sources s.upload_id (with_upload s t) ≡ ok x
      → x.content_fingerprint ≡ s.content_fingerprint
  unfolding read_back get one
  read_back-content s t {x} free h =
      let (o, read, e) =
        >>=-ok (get sources s.upload_id (with_upload s t))
          (λ o. or_raise o (runtime_error "manual_upload_receipt_unavailable")) h in
      elim (Option-cases o) [
        | inl absent ↦ absurd (ground arith)
        | inr (y, there) ↦
            let e' : Result.ok y ≡ ok x = rw there at e in
            let (row, found, same) =
              stored_found-content _ (with_upload s t) {x = x}
                (read ∙ ap (λ z. ok z) (there ∙ ap (λ z. some z) (ok_inj e'))) in
            sym same ∙ new_row-found s t {row = row} free found
      ]

  raced-content :
      (s : Submission) (t : Uploads) (e : Exception) (d : Result (Option CreateReceiptResult))
      {r : CreateReceiptResult}
      → ((r' : CreateReceiptResult)
          → d ≡ ok (some r')
          → r'.stored.content_fingerprint ≡ s.content_fingerprint)
      → raced sources e d ≡ ok r
      → r.stored.content_fingerprint ≡ s.content_fingerprint
  raced-content s t e (err e') good h = absurd (ground arith)
  raced-content s t e (ok none) good h = absurd (ground arith)
  raced-content s t e (ok (some d)) good h =
      ap (λ x. x.stored.content_fingerprint) (sym (ok_inj h)) ∙ good d refl

  inserted-content :
      (s : Submission) (t t' : Uploads) (written : Checked × Uploads) {r : CreateReceiptResult}
      → insert_upload s t ≡ written
      → inserted sources s t written ≡ (ok r, t')
      → r.stored.content_fingerprint ≡ s.content_fingerprint
  inserted-content s t t' (err (integrity_error table), x) {r} done h =
      raced-content s t (integrity_error table) (duplicate sources s t) {r = r}
        (λ r' d. duplicate-content s t {r = r'} d) (ap (λ p. p.0) h)
  inserted-content s t t' (err e, x) {r} done h =
      let h' = ap (λ p. is_ok p.0) h in absurd (ground arith)
  inserted-content s t t' (ok u, x) {r} done h =
      let (free, there) = insert_upload-ok s t x done in
      let (y, read, e) =
        >>=-ok (read_back sources s.upload_id x)
          (λ stored. ok (record { stored = stored; duplicate = false })) (ap (λ p. p.0) h) in
      ap (λ d. d.stored.content_fingerprint) (sym (ok_inj e))
      ∙ read_back-content s t {x = y} free (rw there read)

  create_unless-content :
      (s : Submission) (t t' : Uploads) (d : Result (Option CreateReceiptResult))
      {r : CreateReceiptResult}
      → ((r' : CreateReceiptResult)
          → d ≡ ok (some r')
          → r'.stored.content_fingerprint ≡ s.content_fingerprint)
      → create_unless sources s t d ≡ (ok r, t')
      → r.stored.content_fingerprint ≡ s.content_fingerprint
  create_unless-content s t t' (err e) good h =
      let h' = ap (λ p. is_ok p.0) h in absurd (ground arith)
  create_unless-content s t t' (ok (some d)) good h =
      ap (λ x. x.stored.content_fingerprint) (sym (ok_inj (ap (λ p. p.0) h))) ∙ good d refl
  create_unless-content s t t' (ok none) good h = inserted-content s t t' (insert_upload s t) refl h

  -- Whatever `create` returns, a new receipt or a duplicate, is a receipt of the content submitted,
  -- also when other transactions come between its lookup and its insertion.
  pub create-content :
      (s : Submission) (looked_up t t' : Uploads) (r : CreateReceiptResult)
      → create sources s looked_up t ≡ (ok r, t')
      → r.stored.content_fingerprint ≡ s.content_fingerprint
  unfolding create
  create-content s looked_up t t' r h =
      create_unless-content s t t' (duplicate sources s looked_up) {r = r}
        (λ r' d. duplicate-content s looked_up {r = r'} d) h
