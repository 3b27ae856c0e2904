-- ===== src/Operations/Orphans.antt =====
-- A receipt that is destroyed before the media that it points to.
use phone_law.Prelude.{
  String, ◌≡◌, refl, true, none, some, [], ◌∷◌, ◌==◌, eq_refl, select-update_where,
}
use phone_law.Prelude.Outcome.{ok}
use phone_law.Operations.Contracts.{manual_upload_receipt}
use phone_law.Operations.Tables.{Database, Environment, ReceiptRow, content_destroyed}
use phone_law.Operations.Media.{receipts_of, is_artifact, delete_local_media}
use phone_law.Operations.Destruction.{destroy_content, blank}

-- When an artifact has one receipt and the content of that receipt is destroyed first, the receipt
-- says that the deletion is confirmed and points to no object, while the objects of the store are as
-- before; and the later deletion of the artifact's media succeeds and deletes no object either.
pub receipt_first-delete_local_media :
    (env : Environment) (artifact_id : String) (db : Database) (r : ReceiptRow)
    → receipts_of artifact_id db.manual_upload_receipts ≡ r ∷ []
    → (receipts_of artifact_id
          (destroy_content manual_upload_receipt r.id db).manual_upload_receipts
        ≡ record r {
          validation_summary = content_destroyed;
          object_id = none;
          deletion_confirmed = some true;
        }
          ∷ [])
      × ((destroy_content manual_upload_receipt r.id db).objects ≡ db.objects)
      × (delete_local_media env artifact_id (destroy_content manual_upload_receipt r.id db)
          ≡ ok (destroy_content manual_upload_receipt r.id db))
unfolding destroy_content delete_local_media
receipt_first-delete_local_media env artifact_id db r h =
    let blanked : receipts_of artifact_id
          (destroy_content manual_upload_receipt r.id db).manual_upload_receipts
        ≡ blank r ∷ [] =
      rw
        (
          select-update_where (λ (x : ReceiptRow). is_artifact artifact_id x.artifact_id)
              (λ x. x.id == r.id) blank (λ x. refl) db.manual_upload_receipts,
          h,
          eq_refl r.id,
        )
        refl in
    (blanked, refl, rw blanked refl)
