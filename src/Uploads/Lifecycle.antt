-- ===== src/Uploads/Lifecycle.antt =====
-- The methods on a receipt keep the tables sound, whether they return or raise.
use phone_law.Prelude.{
  ℕ, ◌+◌, String, ◌≡◌, refl, ap, ◌∙◌, subst, inl, inr, Bool, true, false, Option, none, some, List,
  [], ◌∷◌, ◌==◌, eq_iff, arith, find-All, find-passes, Bool-cases, if◌then◌else◌, is_some,
}
use phone_law.Prelude.Outcome.{ok, err, Checked, in_transaction, andthen-keeps, ◌>>=◌}
use phone_law.Uploads.Contracts.{
  UploadState, received, validating, ready, processing, cancelled, deletion_failed,
}
use phone_law.Uploads.Receipts.{UploadRow, UploadEventRow, Uploads, UploadSources, events_of}
use phone_law.Uploads.Repository.{
  is_processing, is_ready, is_cancelled, is_analyzed, is_completion, may_process, update_receipt,
  write, event_of, Completion, claimed, completed_with, cancelled_at_time, deletion_code,
  deletion_confirmed_at, deletion_failed_at, receipt_with, attach_call, read_back, claim,
  claim_found, claim_processing, complete_found, complete, cancel_found, cancel, confirm_found,
  confirm_cancel_deletion,
}
use phone_law.Uploads.Histories.{update_receipt-IsSound, write-IsSound}
use phone_law.Uploads.Paths.{may_follow, latest, processings, IsPath, IsCurrent, IsSoundUploads}

-- A transaction that keeps the tables sound when it returns keeps them when it raises.
transaction-IsSound :
    (t : Uploads) (body : Checked × Uploads)
    → IsSoundUploads t
    → ((t' : Uploads) → body ≡ (ok tt, t') → IsSoundUploads t')
    → IsSoundUploads (in_transaction t body).1
transaction-IsSound t (ok u, t') s h = h t' refl
transaction-IsSound t (err e, t') s h = s

-- The row that is found is where its path has led, and so is every row of that identifier.
found-IsCurrent :
    (t : Uploads) (upload_id : String) {row : UploadRow}
    → IsSoundUploads t
    → receipt_with upload_id t ≡ some row
    → (latest (events_of upload_id t.events) ≡ some row.state)
      × (row.attempt_number ≡ processings (events_of upload_id t.events))
found-IsCurrent t upload_id {row} s h =
    let (state, attempt, bound) =
      find-All (IsCurrent t.events) (λ r. r.id == upload_id) t.receipts {x = row} s.current h in
    let own : row.id ≡ upload_id =
      (eq_iff row.id upload_id).0 (find-passes (λ r. r.id == upload_id) t.receipts {x = row} h) in
    (
      subst (λ k. latest (events_of k t.events) ≡ some row.state) own state,
      subst (λ k. row.attempt_number ≡ processings (events_of k t.events)) own attempt,
    )

-- The states before the processing.
abbrev is_early : Option UploadState → Bool
is_early none = true
is_early (some received) = true
is_early (some validating) = true
is_early (some ready) = true
is_early (some _) = false

early-before :
    (before : Option UploadState) (state : UploadState)
    → may_follow before state ≡ true
    → is_early (some state) ≡ true
    → (is_early before ≡ true) × (is_processing state ≡ false)
early-before none state h early = (refl, ground arith)
early-before (some received) state h early = (refl, ground arith)
early-before (some validating) state h early = (refl, ground arith)
early-before (some before) state h early = (ground arith, ground arith)

early-processings :
    (events : List UploadEventRow)
    → IsPath events
    → is_early (latest events) ≡ true
    → processings events ≡ 0
early-processings [] p h = refl
early-processings (e ∷ rest) p h =
    let (early, other) = early-before (latest rest) e.state p.0 h in
    omega (arith, early-processings rest p.2 early, ap {B = ℕ} (λ b. if b then 1 else 0) other)

module _ (sources : UploadSources) (event_id upload_id : String) (now : ℕ) (t : Uploads) where
  may_process-follows :
      (retryable : Bool) (state : UploadState)
      → may_process retryable state ≡ true
      → may_follow (some state) processing ≡ true
  may_process-follows retryable state h = ground arith

  claim-IsSound :
      (row : UploadRow)
      → receipt_with upload_id t ≡ some row
      → may_process row.retryable row.state ≡ true
      → IsSoundUploads t
      → IsSoundUploads (claim sources event_id upload_id now row t).1
  claim-IsSound row found may s =
      let (state, attempt) = found-IsCurrent t upload_id {row = row} s found in
      andthen-keeps IsSoundUploads
        (in_transaction t (
          write upload_id (claimed (row.attempt_number + 1) now)
            (event_of event_id upload_id processing (row.attempt_number + 1) none now) t))
        (λ _ t'. (read_back sources upload_id t', t'))
        (transaction-IsSound t _ s (λ t' h.
          write-IsSound upload_id (claimed (row.attempt_number + 1) now)
            (record { id = λ r. refl; submission = λ r. refl; content = λ r. refl })
            (event_of event_id upload_id processing (row.attempt_number + 1) none now) refl t t'
            (λ r. refl) (λ r own. omega (arith, attempt))
            (rw state (may_process-follows row.retryable row.state may)) (omega (arith, attempt)) s
            h))
        (λ _ t' h. h)

  claim_found-IsSound :
      (found : Option UploadRow)
      → receipt_with upload_id t ≡ found
      → IsSoundUploads t
      → IsSoundUploads (claim_found sources event_id upload_id now found t).1
  claim_found-IsSound none h s = s
  claim_found-IsSound (some row) h s = elim (Bool-cases (is_analyzed row.state)) [
    | inl done ↦ rw done s
    | inr open_ ↦ elim (Bool-cases (may_process row.retryable row.state)) [
      | inl may ↦ rw (open_, may) (claim-IsSound row h may s)
      | inr refused ↦ rw (open_, refused) s
    ]
  ]

  pub claim_processing-IsSound :
      IsSoundUploads t → IsSoundUploads (claim_processing sources event_id upload_id now t).1
  unfolding claim_processing
  claim_processing-IsSound s = claim_found-IsSound (receipt_with upload_id t) refl s

  completion-follows :
      (before state : UploadState)
      → is_processing before ≡ true
      → is_completion state ≡ true
      → (may_follow (some before) state ≡ true) × (is_processing state ≡ false)
  completion-follows before state was completion = (ground arith, ground arith)

  -- An event that is no processing does not count.
  unprocessed :
      (state : UploadState)
      → is_processing state ≡ false
      → (n : ℕ) {m : ℕ} → m ≡ n
      → m ≡ (if is_processing state then 1 else 0) + n
  unprocessed state other n h = omega (arith, h, ap {B = ℕ} (λ b. if b then 1 else 0) other)

  complete_found-IsSound :
      (c : Completion) (found : Option UploadRow)
      → receipt_with upload_id t ≡ found
      → is_completion c.state ≡ true
      → IsSoundUploads t
      → IsSoundUploads (complete_found sources event_id upload_id c now found t).1
  complete_found-IsSound c none h completion s = s
  complete_found-IsSound c (some row) h completion s = elim (Bool-cases (is_processing row.state)) [
    | inr refused ↦ rw refused s
    | inl was ↦
        let (state, attempt) = found-IsCurrent t upload_id {row = row} s h in
        let (follows, other) = completion-follows row.state c.state was completion in
        rw was (
          andthen-keeps IsSoundUploads
            (in_transaction t (
              write upload_id (completed_with c now)
                (event_of event_id upload_id c.state row.attempt_number c.diagnostic_code now) t))
            (λ _ t'. (read_back sources upload_id t', t'))
            (transaction-IsSound t _ s (λ t' h'.
              write-IsSound upload_id (completed_with c now)
                (record { id = λ r. refl; submission = λ r. refl; content = λ r. refl })
                (event_of event_id upload_id c.state row.attempt_number c.diagnostic_code now) refl
                t t' (λ r. refl)
                (λ r before.
                  unprocessed c.state other (processings (events_of upload_id t.events)) before)
                (rw state follows)
                (unprocessed c.state other (processings (events_of upload_id t.events)) attempt) s
                h'))
            (λ _ t' h'. h'))
  ]

  pub complete-IsSound :
      (c : Completion)
      → IsSoundUploads t
      → IsSoundUploads (complete sources event_id upload_id c now t).1
  unfolding complete
  complete-IsSound c s = elim (Bool-cases (is_completion c.state)) [
    | inl good ↦ rw good (complete_found-IsSound c (receipt_with upload_id t) refl good s)
    | inr bad ↦ rw bad s
  ]

  ready-is : (state : UploadState) → is_ready state ≡ true → state ≡ ready
  ready-is state h = ground arith

  cancel_found-IsSound :
      (found : Option UploadRow)
      → receipt_with upload_id t ≡ found
      → IsSoundUploads t
      → IsSoundUploads (cancel_found sources event_id upload_id now found t).1
  cancel_found-IsSound none h s = s
  cancel_found-IsSound (some row) h s = elim (Bool-cases (is_cancelled row.state)) [
    | inl done ↦ rw done s
    | inr open_ ↦ elim (Bool-cases (is_ready row.state)) [
      | inr refused ↦ rw (open_, refused) s
      | inl was ↦
          let (state, attempt) = found-IsCurrent t upload_id {row = row} s h in
          let at_ready : latest (events_of upload_id t.events) ≡ some ready =
            state ∙ ap (λ x. some x) (ready-is row.state was) in
          let none_yet : processings (events_of upload_id t.events) ≡ 0 =
            early-processings (events_of upload_id t.events) (s.paths upload_id)
              (rw at_ready refl) in
          rw (open_, was)
            (andthen-keeps IsSoundUploads
              (in_transaction t (
                write upload_id (cancelled_at_time now)
                  (event_of event_id upload_id cancelled 0 none now) t))
              (λ _ t'. (read_back sources upload_id t' >>= (λ x. ok (x, true)), t'))
              (transaction-IsSound t _ s (λ t' h'.
                write-IsSound upload_id (cancelled_at_time now)
                  (record { id = λ r. refl; submission = λ r. refl; content = λ r. refl })
                  (event_of event_id upload_id cancelled 0 none now) refl t t' (λ r. refl)
                  (λ r before. omega (arith, before)) (rw at_ready refl) (omega (arith, none_yet)) s
                  h'))
              (λ _ t' h'. h'))
    ]
  ]

  pub cancel-IsSound : IsSoundUploads t → IsSoundUploads (cancel sources event_id upload_id now t).1
  unfolding cancel
  cancel-IsSound s = cancel_found-IsSound (receipt_with upload_id t) refl s

  confirm_found-IsSound :
      (confirmed : Bool) (found : Option UploadRow)
      → receipt_with upload_id t ≡ found
      → (confirmed ≡ false → (row : UploadRow) → found ≡ some row → is_cancelled row.state ≡ true)
      → IsSoundUploads t
      → IsSoundUploads (confirm_found sources event_id upload_id confirmed now found t).1
  confirm_found-IsSound confirmed none h was s = s
  confirm_found-IsSound true (some row) h was s =
      andthen-keeps IsSoundUploads
        (in_transaction t (update_receipt upload_id (deletion_confirmed_at now) t))
        (λ _ t'. (read_back sources upload_id t', t'))
        (transaction-IsSound t _ s (λ t' h'.
          update_receipt-IsSound upload_id (deletion_confirmed_at now)
            (record { id = λ r. refl; submission = λ r. refl; content = λ r. refl }) t t'
            (λ r. refl) (λ r. refl) s h'))
        (λ _ t' h'. h')
  confirm_found-IsSound false (some row) h was s =
      let (state, attempt) = found-IsCurrent t upload_id {row = row} s h in
      let at : is_cancelled row.state ≡ true = was refl row refl in
      let follows : may_follow (some row.state) deletion_failed ≡ true = ground arith in
      andthen-keeps IsSoundUploads
        (in_transaction t (
          write upload_id (deletion_failed_at now)
            (event_of event_id upload_id deletion_failed row.attempt_number (some deletion_code)
              now)
            t))
        (λ _ t'. (read_back sources upload_id t', t'))
        (transaction-IsSound t _ s (λ t' h'.
          write-IsSound upload_id (deletion_failed_at now)
            (record { id = λ r. refl; submission = λ r. refl; content = λ r. refl })
            (event_of event_id upload_id deletion_failed row.attempt_number (some deletion_code)
              now)
            refl t t' (λ r. refl) (λ r before. omega (arith, before)) (rw state follows)
            (omega (arith, attempt)) s h'))
        (λ _ t' h'. h')

  pub confirm_cancel_deletion-IsSound :
      (confirmed : Bool)
      → (confirmed ≡ false
          → (row : UploadRow) → receipt_with upload_id t ≡ some row
          → is_cancelled row.state ≡ true)
      → IsSoundUploads t
      → IsSoundUploads (confirm_cancel_deletion sources event_id upload_id confirmed now t).1
  unfolding confirm_cancel_deletion
  confirm_cancel_deletion-IsSound confirmed was s =
      confirm_found-IsSound confirmed (receipt_with upload_id t) refl was s

pub attach_call-IsSound :
    (upload_id call_id : String) (now : ℕ) (t : Uploads)
    → IsSoundUploads t
    → IsSoundUploads (attach_call upload_id call_id now t).1
unfolding attach_call
attach_call-IsSound upload_id call_id now t s =
    let f : UploadRow → UploadRow =
      λ r. if is_some r.call_id then r else record r { call_id = some call_id; updated_at = now } in
    transaction-IsSound t (update_receipt upload_id f t) s (λ t' h.
      update_receipt-IsSound upload_id f
        (record {
          id = λ r. ground arith;
          submission = λ r. ground arith;
          content = λ r. ground arith;
        })
        t t' (λ r. ground arith) (λ r. ground arith) s h)
