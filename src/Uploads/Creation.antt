-- ===== src/Uploads/Creation.antt =====
-- `create` keeps the upload tables sound.
use phone_law.Prelude.{
  ◌+◌, String, ◌≡◌, refl, ap, subst, inl, inr, true, false, ◌&&◌, not, Option, none, some, List, [],
  ◌∷◌, ◌==◌, eq_iff, eq_refl, arith, All, All-map, Bool-cases,
}
use phone_law.Prelude.Outcome.{ok, err, Checked, is_ok, Result, ◌andthen◌, integrity_error}
use phone_law.Uploads.Contracts.{received, validating, ready}
use phone_law.Uploads.Receipts.{
  UploadRow, UploadEventRow, Uploads, UploadSources, events_of, has_receipt, satisfies_checks,
}
use phone_law.Uploads.Repository.{event_of, insert_event}
use phone_law.Uploads.Submissions.{
  Submission, CreateReceiptResult, new_row, is_taken, insert_receipt, insert_upload, duplicate,
  inserted, create_unless, create,
}
use phone_law.Uploads.Paths.{IsPath, IsCurrent, IsSoundUploads, insert_event-ok}

andthen-ok {ℓ κ μ} :
    {A : Type ℓ} {B : Type κ} {S : Type μ} (r : Result A × S) (f : A → S → Result B × S) {b : B}
    {t' : S}
    → (r andthen f) ≡ (ok b, t')
    → (a : A) × (t : S) × (r ≡ (ok a, t)) × (f a t ≡ (ok b, t'))
andthen-ok (ok a, t) f h = (a, t, refl, h)
andthen-ok (err e, t) f h = let h' = ap (λ p. is_ok p.0) h in absurd (ground arith)

insert_receipt-ok :
    (row : UploadRow) (t t' : Uploads)
    → insert_receipt row t ≡ (ok tt, t')
    → (is_taken row t.receipts ≡ false) × (record t { receipts = row ∷ t.receipts } ≡ t')
unfolding insert_receipt
insert_receipt-ok row t t' h =
    elim (Bool-cases (not (is_taken row t.receipts) && satisfies_checks row)) [
      | inr failed ↦ let h' = ap (λ p. is_ok p.0) h in absurd (ground arith)
      | inl passed ↦
          let done : Checked × Uploads = (ok tt, record t { receipts = row ∷ t.receipts }) in
          let h' : done ≡ (ok tt, t') = rw passed at h in (ground arith, ap (λ p. p.1) h')
    ]

-- A receipt that is not there has no events.
unowned-events_of :
    (k : String) (receipts : List UploadRow) (events : List UploadEventRow)
    → has_receipt k receipts ≡ false
    → All (λ e. has_receipt e.upload_id receipts ≡ true) events
    → events_of k events ≡ []
unowned-events_of k receipts [] fresh h = refl
unowned-events_of k receipts (e ∷ events) fresh h = elim (Bool-cases (e.upload_id == k)) [
  | inr other ↦ rw other (unowned-events_of k receipts events fresh h.1)
  | inl own ↦
      let there : has_receipt k receipts ≡ true =
        subst (λ l. has_receipt l receipts ≡ true) ((eq_iff e.upload_id k).0 own) h.0 in
      absurd (ground arith)
]

-- The other receipts are where they were.
IsCurrent-others :
    (e : UploadEventRow) (events : List UploadEventRow) (receipts : List UploadRow)
    → has_receipt e.upload_id receipts ≡ false
    → All (IsCurrent events) receipts
    → All (IsCurrent (e ∷ events)) receipts
IsCurrent-others e events [] fresh h = tt
IsCurrent-others e events (r ∷ rest) fresh h =
    let other : (e.upload_id == r.id) ≡ false =
      ground (arith, eq_iff r.id e.upload_id, eq_iff e.upload_id r.id) in
    (rw other h.0, IsCurrent-others e events rest (ground arith) h.1)

paths-others :
    (e : UploadEventRow) (events : List UploadEventRow) (k : String)
    → (e.upload_id == k) ≡ false
    → events_of k (e ∷ events) ≡ events_of k events
paths-others e events k other = rw other refl

-- The tables with a new receipt and its first three events.
abbrev pub with_upload : Submission → Uploads → Uploads
with_upload s t = record t {
  receipts = new_row s ∷ t.receipts;
  events =
      event_of s.ready_id s.upload_id ready 0 none (s.now + 2)
      ∷ event_of s.validating_id s.upload_id validating 0 none (s.now + 1)
      ∷ event_of s.received_id s.upload_id received 0 none s.now
      ∷ t.events;
}

new-paths :
    (s : Submission) (t : Uploads)
    → events_of s.upload_id t.events ≡ []
    → ((k : String) → IsPath (events_of k t.events))
    → (k : String) → IsPath (events_of k (with_upload s t).events)
new-paths s t fresh paths k = elim (Bool-cases (s.upload_id == k)) [
  | inr other ↦ rw other (paths k)
  | inl own ↦
      subst (λ l. IsPath (events_of l (with_upload s t).events)) ((eq_iff s.upload_id k).0 own)
        (rw (eq_refl s.upload_id, fresh) (refl, refl, (refl, refl, (refl, refl, tt))))
]

with_upload-IsSound :
    (s : Submission) (t : Uploads)
    → is_taken (new_row s) t.receipts ≡ false
    → IsSoundUploads t
    → IsSoundUploads (with_upload s t)
with_upload-IsSound s t free sound =
    let fresh : has_receipt s.upload_id t.receipts ≡ false = ground arith in
    let first = event_of s.received_id s.upload_id received 0 none s.now in
    let second = event_of s.validating_id s.upload_id validating 0 none (s.now + 1) in
    let third = event_of s.ready_id s.upload_id ready 0 none (s.now + 2) in
    let listed : has_receipt s.upload_id (new_row s ∷ t.receipts) ≡ true =
      rw (eq_refl s.upload_id) refl in
    let no_events = unowned-events_of s.upload_id t.receipts t.events fresh sound.owned in
    record {
      paths = new-paths s t no_events sound.paths;
      current = (
        (rw (eq_refl s.upload_id) refl, rw (eq_refl s.upload_id, no_events) refl, omega arith),
        IsCurrent-others third (second ∷ first ∷ t.events) t.receipts fresh (
            IsCurrent-others second (first ∷ t.events) t.receipts fresh
              (IsCurrent-others first t.events t.receipts fresh sound.current)),
      );
      owned = (
        listed,
        (
          listed,
          (
            listed,
            All-map (λ e. has_receipt e.upload_id t.receipts ≡ true)
                (λ e. has_receipt e.upload_id (new_row s ∷ t.receipts) ≡ true) (λ e h. ground arith)
                t.events sound.owned,
          ),
        ),
      );
      one_submission = (ground arith, sound.one_submission);
      one_content = (ground arith, sound.one_content);
    }

-- What is inserted, if it is.
pub insert_upload-ok :
    (s : Submission) (t t' : Uploads)
    → insert_upload s t ≡ (ok tt, t')
    → (is_taken (new_row s) t.receipts ≡ false) × (with_upload s t ≡ t')
unfolding insert_upload
insert_upload-ok s t t' h =
    let first = event_of s.received_id s.upload_id received 0 none s.now in
    let second = event_of s.validating_id s.upload_id validating 0 none (s.now + 1) in
    let third = event_of s.ready_id s.upload_id ready 0 none (s.now + 2) in
    let (a, t₃, h₃, last) = andthen-ok _ (λ _. insert_event third) h in
    let (b, t₂, h₂, next) = andthen-ok _ (λ _. insert_event second) h₃ in
    let (c, t₁, h₁, one) = andthen-ok (insert_receipt (new_row s) t) (λ _. insert_event first) h₂ in
    let (free, e₁) = insert_receipt-ok (new_row s) t t₁ h₁ in
    let e₂ = (insert_event-ok first t₁ t₂ one).2 in
    let e₃ = (insert_event-ok second t₂ t₃ next).2 in
    let e₄ = (insert_event-ok third t₃ t' last).2 in (free, cc)

module _ (sources : UploadSources) (s : Submission) where
  inserted-IsSound :
      (t : Uploads) (r : Checked × Uploads)
      → IsSoundUploads t
      → ((t' : Uploads) → r ≡ (ok tt, t') → IsSoundUploads t')
      → IsSoundUploads (inserted sources s t r).1
  inserted-IsSound t (ok u, t') sound h = h t' refl
  inserted-IsSound t (err (integrity_error table), t') sound h = sound
  inserted-IsSound t (err e, t') sound h = sound

  create_unless-IsSound :
      (t : Uploads) (d : Result (Option CreateReceiptResult))
      → IsSoundUploads t
      → IsSoundUploads (create_unless sources s t d).1
  create_unless-IsSound t (err e) sound = sound
  create_unless-IsSound t (ok (some r)) sound = sound
  create_unless-IsSound t (ok none) sound = inserted-IsSound t (insert_upload s t) sound (λ t' h.
      let (free, there) = insert_upload-ok s t t' h in
      subst IsSoundUploads there (with_upload-IsSound s t free sound))

  pub create-IsSound :
      (looked_up t : Uploads) → IsSoundUploads t → IsSoundUploads (create sources s looked_up t).1
  unfolding create
  create-IsSound looked_up t sound = create_unless-IsSound t (duplicate sources s looked_up) sound
