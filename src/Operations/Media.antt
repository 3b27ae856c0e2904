-- ===== src/Operations/Media.antt =====
-- `_delete_local_media`, and what it uses of `LocalSyntheticObjectStore` (packages/media/store.py).
use phone_law.Prelude.{
  String, Bool, true, false, not, Option, none, some, List, [], ◌∷◌, ◌==◌, select, if◌then◌else◌,
}
use phone_law.Prelude.Outcome.{Result, Checked, ok, err, value_error, os_error, runtime_error}
use phone_law.Operations.Tables.{Database, Environment, ReceiptRow}
use phone_law.Operations.ObjectId.{is_object_id}

-- `_safe_path`, whose parent is the root that was checked when the store was opened.
unfoldable pub safe_path : Environment → String → Checked
safe_path env object_id =
    if not (is_object_id object_id)
    then err (value_error "invalid_object_identifier")
    else if env.is_symlink object_id
    then err (value_error "object_symlink_forbidden")
    else ok tt

abbrev pub without : String → List String → List String
without object_id objects = select (λ o. not (o == object_id)) objects

-- `delete`: whether the object is gone, and the objects that are left.
unfoldable pub delete : Environment → String → List String → Result (Bool × List String)
unfolding safe_path
delete env object_id objects = elim (safe_path env object_id) [
  | ok _ ↦
      if env.can_unlink object_id then ok (true, without object_id objects) else ok (false, objects)
  | err e ↦ err e
]

abbrev pub is_artifact : String → Option String → Bool
is_artifact artifact_id none = false
is_artifact artifact_id (some a) = a == artifact_id

abbrev pub receipts_of : String → List ReceiptRow → List ReceiptRow
receipts_of artifact_id receipts = select (λ r. is_artifact artifact_id r.artifact_id) receipts

-- The object of a receipt: deleted, or an exception and the objects as they are.
abbrev pub deleted_object : Environment → String → Database → Result Database
deleted_object env object_id db =
    if not env.store_opens
    then err (value_error "temporary_root_outside_boundary")
    else elim (delete env object_id db.objects) [
      | ok (true, objects) ↦ ok (record db { objects = objects })
      | ok (false, objects) ↦ err (os_error "local media cleanup failed")
      | err e ↦ err e
    ]

abbrev pub object_of : Environment → List ReceiptRow → Database → Result Database
object_of env [] db = ok db
object_of env (r ∷ []) db = elim r.object_id [
  | none ↦ ok db
  | some object_id ↦ deleted_object env object_id db
]
object_of env (r ∷ _ ∷ _) db = err (runtime_error "MultipleResultsFound")

unfoldable pub delete_local_media :
    Environment → (artifact_id : String) → Database → Result Database
unfolding delete
delete_local_media env artifact_id db =
    object_of env (receipts_of artifact_id db.manual_upload_receipts) db
