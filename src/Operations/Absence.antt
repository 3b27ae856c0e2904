-- ===== src/Operations/Absence.antt =====
-- What is left of a resource after its content is destroyed.
use phone_law.Prelude.{
  ℕ, String, ◌≡◌, refl, ap, subst, ◌∙◌, inl, inr, Option, none, some, Bool-cases, Option-cases,
  Bool, true, false, ◌&&◌, ◌||◌, not, List, [], ◌∷◌, ◌==◌, arith, any, select, update_where,
  is_some,
}
use phone_law.Operations.Contracts.{
  RetentionResource, generated_media, invented_transcript, accepted_analysis, daily_report,
  processing_attempt, manual_upload_receipt, reviewer_feedback, playbook_version, audit_metadata,
}
use phone_law.Operations.Tables.{
  Database, Environment, Payload, ContentRow, ReportItemRow, ArtifactRow, MediaRow, ReceiptRow,
  FeedbackRow, JobRow, TombstoneRow, AuditRow, content, content_destroyed,
}
use phone_law.Operations.Destruction.{destroy_content, blank, erase, erase_item, erase_note}
use phone_law.Operations.Execution.{is_audit, is_media}
use phone_law.Operations.Media.{
  delete, safe_path, without, is_artifact, receipts_of, deleted_object, object_of,
  delete_local_media,
}
use phone_law.Prelude.Outcome.{Result, ok, ok_inj, Result-cases}

abbrev holds_content : Payload → Bool
holds_content (content c) = true
holds_content content_destroyed = false

abbrev pub is_stored : Option String → List String → Bool
is_stored none objects = false
is_stored (some object_id) objects = any (λ o. o == object_id) objects

-- Whether a receipt of the artifact names an object that is in the store.
abbrev pub keeps_object : String → Database → Bool
keeps_object artifact_id db =
    any (λ r. is_artifact artifact_id r.artifact_id && is_stored r.object_id db.objects)
      db.manual_upload_receipts

-- The resource is destroyed: its rows are gone or carry the marker in place of their content, and
-- for generated media no object that a receipt of the artifact names is in the store. The receipt of
-- an upload itself is destroyed when its row is blank: its object is media, not receipt.
abbrev pub is_gone : RetentionResource → String → Database → Bool
is_gone generated_media id db =
    not (any (λ r. r.id == id) db.media_artifacts)
    && (not (any (λ r. r.artifact_id == id) db.media_lifecycle_events)
        && (not (any (λ r. r.artifact_id == id) db.transcription_provider_attempts)
            && not (keeps_object id db)))
is_gone invented_transcript id db =
    not (any (λ r. r.id == id && holds_content r.payload) db.transcripts)
is_gone accepted_analysis id db = not (any (λ r. r.id == id && holds_content r.payload) db.analyses)
is_gone daily_report id db =
    not (any (λ r. r.id == id && holds_content r.payload) db.daily_reports)
    && not (any (λ r. r.report_id == id && holds_content r.item_payload) db.daily_report_items)
is_gone processing_attempt id db =
    not (any (λ r. r.id == id && holds_content r.payload) db.processing_attempts)
is_gone manual_upload_receipt id db = not (
    any (λ r. r.id == id && (holds_content r.validation_summary || is_some r.object_id))
      db.manual_upload_receipts)
is_gone reviewer_feedback id db = not (any (λ r. r.id == id && is_some r.note) db.review_events)
is_gone playbook_version id db =
    not (any (λ r. r.id == id && holds_content r.payload) db.playbook_versions)
is_gone audit_metadata id db = false

select-any {ℓ} :
    {A : Type ℓ} (p : A → Bool) (xs : List A) → any p (select (λ x. not (p x)) xs) ≡ false
select-any p [] = refl
select-any p (x ∷ xs) = ground (arith, select-any p xs)

-- An update that makes `q` false where `p` holds.
update-any {ℓ} :
    {A : Type ℓ} (p q : A → Bool) (f : A → A)
    → ((x : A) → p (f x) ≡ p x)
    → ((x : A) → q (f x) ≡ false)
    → (xs : List A) → any (λ x. p x && q x) (update_where p f xs) ≡ false
update-any p q f same cleared [] = refl
update-any p q f same cleared (x ∷ xs) =
    ground (arith, same x, cleared x, update-any p q f same cleared xs)

any-and_select {ℓ} :
    {A : Type ℓ} (p q : A → Bool) (xs : List A) → any (λ x. p x && q x) xs ≡ any q (select p xs)
any-and_select p q [] = refl
any-and_select p q (x ∷ xs) = ground (arith, any-and_select p q xs)

deleted_object-is_stored :
    (env : Environment) (object_id : String) (db : Database) {db' : Database}
    → deleted_object env object_id db ≡ ok db'
    → (any (λ o. o == object_id) db'.objects ≡ false)
      × (db.manual_upload_receipts ≡ db'.manual_upload_receipts)
unfolding delete
deleted_object-is_stored env object_id db {db'} h = elim (Bool-cases env.store_opens) [
  | inr e ↦ absurd (ground arith)
  | inl opens ↦ elim (Result-cases (safe_path env object_id)) [
    | inr (e, raised) ↦ absurd (ground arith)
    | inl (u, safe) ↦ elim (Bool-cases (env.can_unlink object_id)) [
      | inr e ↦ absurd (ground arith)
      | inl can ↦
          let done : Result Database = ok (record db { objects = without object_id db.objects }) in
          let h₁ : done ≡ ok db' = rw (opens, safe, can) at h in
          let same = ok_inj h₁ in
          (
            subst (λ d. any (λ o. o == object_id) d.objects ≡ false) same
                (select-any (λ o. o == object_id) db.objects),
            ap (λ d. d.manual_upload_receipts) same,
          )
    ]
  ]
]

object_of-is_stored :
    (env : Environment) (receipts : List ReceiptRow) (db : Database) {db' : Database}
    → object_of env receipts db ≡ ok db'
    → (any (λ r. is_stored r.object_id db'.objects) receipts ≡ false)
      × (db.manual_upload_receipts ≡ db'.manual_upload_receipts)
object_of-is_stored env [] db h = (refl, ap (λ d. d.manual_upload_receipts) (ok_inj h))
object_of-is_stored env (r ∷ []) db {db'} h = elim (Option-cases r.object_id) [
  | inl e ↦
      let done : Result Database = ok db in
      let h₁ : done ≡ ok db' = rw e at h in
      (rw e refl, ap (λ d. d.manual_upload_receipts) (ok_inj h₁))
  | inr (object_id, e) ↦
      let (gone, same) = deleted_object-is_stored env object_id db {db' = db'} (rw e at h) in
      (rw (e, gone) refl, same)
]
object_of-is_stored env (r ∷ s ∷ rest) db h = absurd (ground arith)

-- After `_delete_local_media` returns, no receipt of the artifact names an object of the store.
pub delete_local_media-keeps_object :
    (env : Environment) (artifact_id : String) (db : Database) {db' : Database}
    → delete_local_media env artifact_id db ≡ ok db'
    → keeps_object artifact_id db' ≡ false
unfolding delete_local_media
delete_local_media-keeps_object env artifact_id db {db'} h =
    let (gone, same) =
      object_of-is_stored env (receipts_of artifact_id db.manual_upload_receipts) db {db' = db'}
        h in
    subst
      (λ rows.
        any (λ r. is_artifact artifact_id r.artifact_id && is_stored r.object_id db'.objects) rows
        ≡ false)
      same
      (any-and_select (λ (r : ReceiptRow). is_artifact artifact_id r.artifact_id)
          (λ r. is_stored r.object_id db'.objects) db.manual_upload_receipts
        ∙ gone)

pub destroy_content-is_gone :
    (r : RetentionResource) (id : String) (db : Database)
    → is_audit r ≡ false
    → (is_media r ≡ true → keeps_object id db ≡ false)
    → is_gone r id (destroy_content r id db) ≡ true
unfolding destroy_content
destroy_content-is_gone generated_media id db h removed =
    rw
      (
        select-any (λ (r : MediaRow). r.id == id) db.media_artifacts,
        select-any (λ (r : ArtifactRow). r.artifact_id == id) db.media_lifecycle_events,
        select-any (λ (r : ArtifactRow). r.artifact_id == id) db.transcription_provider_attempts,
        removed refl,
      )
      refl
destroy_content-is_gone invented_transcript id db h removed =
    rw
      (update-any (λ (r : ContentRow). r.id == id) (λ r. holds_content r.payload) erase (λ r. refl)
        (λ r. refl) db.transcripts)
      refl
destroy_content-is_gone accepted_analysis id db h removed =
    rw
      (update-any (λ (r : ContentRow). r.id == id) (λ r. holds_content r.payload) erase (λ r. refl)
        (λ r. refl) db.analyses)
      refl
destroy_content-is_gone daily_report id db h removed =
    rw
      (
        update-any (λ (r : ContentRow). r.id == id) (λ r. holds_content r.payload) erase (λ r. refl)
            (λ r. refl) db.daily_reports,
        update-any (λ (r : ReportItemRow). r.report_id == id) (λ r. holds_content r.item_payload)
            erase_item (λ r. refl) (λ r. refl) db.daily_report_items,
      )
      refl
destroy_content-is_gone processing_attempt id db h removed =
    rw
      (update-any (λ (r : ContentRow). r.id == id) (λ r. holds_content r.payload) erase (λ r. refl)
        (λ r. refl) db.processing_attempts)
      refl
destroy_content-is_gone manual_upload_receipt id db h removed =
    rw
      (update-any (λ (r : ReceiptRow). r.id == id)
        (λ r. holds_content r.validation_summary || is_some r.object_id) blank (λ r. refl)
        (λ r. refl) db.manual_upload_receipts)
      refl
destroy_content-is_gone reviewer_feedback id db h removed =
    rw
      (update-any (λ (r : FeedbackRow). r.id == id) (λ r. is_some r.note) erase_note (λ r. refl)
        (λ r. refl) db.review_events)
      refl
destroy_content-is_gone playbook_version id db h removed =
    rw
      (update-any (λ (r : ContentRow). r.id == id) (λ r. holds_content r.payload) erase (λ r. refl)
        (λ r. refl) db.playbook_versions)
      refl
destroy_content-is_gone audit_metadata id db h removed = absurd (ground arith)

-- What is written besides the content does not bring it back.
pub is_gone-bookkeeping :
    (r : RetentionResource) (id : String) (db : Database) (jobs : List JobRow)
    (tombstones : List TombstoneRow) (audits : List AuditRow) (issued : ℕ)
    → is_gone r id (record db {
      retention_jobs = jobs;
      retention_tombstones = tombstones;
      audit_events = audits;
      issued = issued;
    })
      ≡ is_gone r id db
is_gone-bookkeeping generated_media id db jobs ts audits issued = refl
is_gone-bookkeeping invented_transcript id db jobs ts audits issued = refl
is_gone-bookkeeping accepted_analysis id db jobs ts audits issued = refl
is_gone-bookkeeping daily_report id db jobs ts audits issued = refl
is_gone-bookkeeping processing_attempt id db jobs ts audits issued = refl
is_gone-bookkeeping manual_upload_receipt id db jobs ts audits issued = refl
is_gone-bookkeeping reviewer_feedback id db jobs ts audits issued = refl
is_gone-bookkeeping playbook_version id db jobs ts audits issued = refl
is_gone-bookkeeping audit_metadata id db jobs ts audits issued = refl
