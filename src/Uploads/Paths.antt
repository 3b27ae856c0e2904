-- ===== src/Uploads/Paths.antt =====
-- The events of a receipt as a path of states.
use phone_law.Prelude.{
  ℕ, ◌+◌, ◌≤◌, String, ◌≡◌, ap, inl, inr, Bool, true, false, ◌&&◌, not, Option, none, some, List,
  [], ◌∷◌, ◌==◌, arith, any, All, IsUnique, Bool-cases, if◌then◌else◌, leb,
}
use phone_law.Prelude.Outcome.{ok, Checked, is_ok}
use phone_law.Uploads.Contracts.{
  UploadState, received, validating, ready, processing, analyzed, transcription_failed,
  analysis_failed, cancelled, deletion_failed,
}
use phone_law.Uploads.Receipts.{UploadRow, UploadEventRow, Uploads, events_of, has_receipt}
use phone_law.Uploads.Repository.{is_processing, insert_event}

-- The states that an upload goes through.
abbrev pub may_follow : Option UploadState → UploadState → Bool
may_follow none received = true
may_follow (some received) validating = true
may_follow (some validating) ready = true
may_follow (some ready) processing = true
may_follow (some ready) cancelled = true
may_follow (some processing) analyzed = true
may_follow (some processing) transcription_failed = true
may_follow (some processing) analysis_failed = true
may_follow (some processing) deletion_failed = true
may_follow (some transcription_failed) processing = true
may_follow (some analysis_failed) processing = true
may_follow (some cancelled) deletion_failed = true
may_follow _ _ = false

-- Of a path, newest first.
abbrev pub latest : List UploadEventRow → Option UploadState
latest [] = none
latest (e ∷ earlier) = some e.state

abbrev pub processings : List UploadEventRow → ℕ
processings [] = 0
processings (e ∷ earlier) = (if is_processing e.state then 1 else 0) + processings earlier

abbrev pub IsPath : List UploadEventRow → Type 0
IsPath [] = Unit
IsPath (e ∷ earlier) =
    (may_follow (latest earlier) e.state ≡ true)
    × (e.attempt_number ≡ processings (e ∷ earlier))
    × IsPath earlier

-- A receipt is in the state of its last event, and counts the times that it was processed.
abbrev pub IsCurrent : List UploadEventRow → UploadRow → Type 0
IsCurrent events r =
    (latest (events_of r.id events) ≡ some r.state)
    × (r.attempt_number ≡ processings (events_of r.id events))
    × (r.attempt_number ≤ 3)

pub record IsSoundUploads (t : Uploads) : Type 0 where
  pub paths : (upload_id : String) → IsPath (events_of upload_id t.events)
  pub current : All (IsCurrent t.events) t.receipts
  pub owned : All (λ e. has_receipt e.upload_id t.receipts ≡ true) t.events
  pub one_submission : IsUnique (λ r. r.client_submission_id) t.receipts
  pub one_content : IsUnique (λ r. r.content_fingerprint) t.receipts

pub insert_event-ok :
    (e : UploadEventRow) (t t' : Uploads)
    → insert_event e t ≡ (ok tt, t')
    → (has_receipt e.upload_id t.receipts ≡ true)
      × (e.attempt_number ≤ 3)
      × (record t { events = e ∷ t.events } ≡ t')
unfolding insert_event
insert_event-ok e t t' h =
    elim (Bool-cases (
      not (any (λ d. d.id == e.id) t.events)
      && (has_receipt e.upload_id t.receipts && leb e.attempt_number 3))) [
        | inr failed ↦ let h' = ap (λ p. is_ok p.0) h in absurd (ground arith)
        | inl passed ↦
            let done : Checked × Uploads = (ok tt, record t { events = e ∷ t.events }) in
            let h' : done ≡ (ok tt, t') = rw passed at h in
            (ground arith, ground arith, ap (λ p. p.1) h')
      ]

-- An update of a row that keeps what identifies it.
pub record KeepsIdentity (f : UploadRow → UploadRow) : Type 0 where
  pub id : (r : UploadRow) → (f r).id ≡ r.id
  pub submission : (r : UploadRow) → (f r).client_submission_id ≡ r.client_submission_id
  pub content : (r : UploadRow) → (f r).content_fingerprint ≡ r.content_fingerprint
