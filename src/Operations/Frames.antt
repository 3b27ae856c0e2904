-- ===== src/Operations/Frames.antt =====
-- What destroying content and deleting a local object leave alone.
use phone_law.Prelude.{
  String, ◌≡◌, refl, inl, inr, true, false, List, [], ◌∷◌, ◌==◌, ℕ, arith, Bool-cases, Option-cases,
  any,
}
use phone_law.Prelude.Outcome.{ok, ok_inj, Result-cases}
use phone_law.Operations.Contracts.{
  RetentionResource, generated_media, invented_transcript, accepted_analysis, daily_report,
  processing_attempt, manual_upload_receipt, reviewer_feedback, playbook_version, audit_metadata,
  DeletionJob,
}
use phone_law.Operations.Tables.{Database, Environment, ReceiptRow, TombstoneRow}
use phone_law.Operations.Media.{delete, delete_local_media, deleted_object, object_of, receipts_of}
use phone_law.Operations.Destruction.{destroy_content}
use phone_law.Operations.Execution.{
  destroyed_content, insert_tombstone, tombstone, is_tombstone_for, removed_media, is_media,
  is_audit,
}

pub destroy_content-retention :
    (r : RetentionResource) (id : String) (db : Database)
    → ((destroy_content r id db).retention_jobs ≡ db.retention_jobs)
      × ((destroy_content r id db).retention_tombstones ≡ db.retention_tombstones)
      × ((destroy_content r id db).audit_events ≡ db.audit_events)
      × ((destroy_content r id db).objects ≡ db.objects)
unfolding destroy_content
destroy_content-retention generated_media id db = (refl, refl, refl, refl)
destroy_content-retention invented_transcript id db = (refl, refl, refl, refl)
destroy_content-retention accepted_analysis id db = (refl, refl, refl, refl)
destroy_content-retention daily_report id db = (refl, refl, refl, refl)
destroy_content-retention processing_attempt id db = (refl, refl, refl, refl)
destroy_content-retention manual_upload_receipt id db = (refl, refl, refl, refl)
destroy_content-retention reviewer_feedback id db = (refl, refl, refl, refl)
destroy_content-retention playbook_version id db = (refl, refl, refl, refl)
destroy_content-retention audit_metadata id db = (refl, refl, refl, refl)

pub destroyed_content-retention :
    (job : DeletionJob) (db : Database)
    → ((destroyed_content job db).retention_jobs ≡ db.retention_jobs)
      × ((destroyed_content job db).retention_tombstones ≡ db.retention_tombstones)
      × ((destroyed_content job db).audit_events ≡ db.audit_events)
      × ((destroyed_content job db).objects ≡ db.objects)
destroyed_content-retention job db = elim (Bool-cases (is_audit job.resource_type)) [
  | inl e ↦ rw e (refl, refl, refl, refl)
  | inr e ↦ rw e (destroy_content-retention job.resource_type job.resource_id db)
]

deleted_object-ok :
    (env : Environment) (object_id : String) (db : Database) {db' : Database}
    → deleted_object env object_id db ≡ ok db'
    → (objects : List String) × (db' ≡ record db { objects = objects })
unfolding delete
deleted_object-ok env object_id db {db'} h = elim (Bool-cases env.store_opens) [
  | inr closed ↦ absurd (ground arith)
  | inl opens ↦ elim (Result-cases (delete env object_id db.objects)) [
    | inl ((true, objects), e) ↦
        let h' : ok (record db { objects = objects }) ≡ ok db' = rw (opens, e) at h in (objects, cc)
    | inl ((false, objects), e) ↦ absurd (ground arith)
    | inr (x, e) ↦ absurd (ground arith)
  ]
]

object_of-ok :
    (env : Environment) (receipts : List ReceiptRow) (db : Database) {db' : Database}
    → object_of env receipts db ≡ ok db'
    → (objects : List String) × (db' ≡ record db { objects = objects })
object_of-ok env [] db h = (db.objects, ground arith)
object_of-ok env (r ∷ []) db {db'} h = elim (Option-cases r.object_id) [
  | inl e ↦ (db.objects, ground arith)
  | inr (object_id, e) ↦ deleted_object-ok env object_id db {db' = db'} (rw e at h)
]
object_of-ok env (r ∷ _ ∷ _) db h = absurd (ground arith)

-- A deletion changes the objects alone.
pub delete_local_media-ok :
    (env : Environment) (artifact_id : String) (db : Database) {db' : Database}
    → delete_local_media env artifact_id db ≡ ok db'
    → (objects : List String) × (db' ≡ record db { objects = objects })
unfolding delete_local_media
delete_local_media-ok env artifact_id db {db'} h =
    object_of-ok env (receipts_of artifact_id db.manual_upload_receipts) db {db' = db'} h

pub removed_media-ok :
    (env : Environment) (job : DeletionJob) (db : Database) {db' : Database}
    → removed_media env job db ≡ ok db'
    → (objects : List String) × (db' ≡ record db { objects = objects })
removed_media-ok env job db {db'} h = elim (Bool-cases (is_media job.resource_type)) [
  | inl e ↦ delete_local_media-ok env job.resource_id db {db' = db'} (rw e at h)
  | inr e ↦ (db.objects, ground arith)
]

-- An insertion changes the tombstones alone.
pub insert_tombstone-ok :
    (env : Environment) (job : DeletionJob) (now : ℕ) (db : Database) {db' : Database}
    → insert_tombstone env job now db ≡ ok db'
    → (tombstones : List TombstoneRow) × (record db { retention_tombstones = tombstones } ≡ db')
unfolding insert_tombstone
insert_tombstone-ok env job now db {db'} h =
    elim (Bool-cases
      (any (is_tombstone_for job.resource_type job.resource_id) db.retention_tombstones)) [
        | inl there ↦ (db.retention_tombstones, ok_inj (rw there at h))
        | inr fresh ↦
            elim (Bool-cases
              (any (λ t. t.id == (tombstone env job now).id) db.retention_tombstones)) [
                | inl clash ↦ absurd (ground arith)
                | inr free ↦ (
                  tombstone env job now ∷ db.retention_tombstones,
                  ok_inj (rw (fresh, free) at h),
                )
              ]
      ]
