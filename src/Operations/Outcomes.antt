-- ===== src/Operations/Outcomes.antt =====
-- What the outcome of an execution says of the content, and a receipt that is destroyed before its
-- media.
use phone_law.Prelude.{
  ℕ, String, ◌≡◌, ◌∙◌, subst, inl, inr, Bool, true, false, Option, none, some, ◌==◌, find,
  Bool-cases,
}
use phone_law.Prelude.Outcome.{Result, ok, err, os_error, ok_inj, Result-cases, >>=-ok}
use phone_law.Policy.{DemoPrincipal}
use phone_law.Operations.Contracts.{
  DeletionState, DeletionJob, deleted, retained_exception, is_final,
}
use phone_law.Operations.Tables.{Database, Environment, JobRow}
use phone_law.Operations.Audit.{audit, deletion_job, ticked}
use phone_law.Operations.Frames.{insert_tombstone-ok}
use phone_law.Operations.Execution.{
  is_audit, is_media, is_last, insert_tombstone, destroyed_content, finished, destroy_rows,
  removed_media, without_media, destroy, settled, record_failure, planned, attempt_deletion,
  start_deletion, execute_one,
}
use phone_law.Operations.Absence.{
  is_gone, keeps_object, delete_local_media-keeps_object, destroy_content-is_gone,
  is_gone-bookkeeping,
}

module _ (env : Environment) (principal : DemoPrincipal) (job : DeletionJob) where
  -- A destruction that ends with `False` has destroyed the resource.
  abbrev IsEmptied : Result Bool × Database → Type 0
  IsEmptied (ok true, db) = is_audit job.resource_type ≡ true
  IsEmptied (ok false, db) = is_gone job.resource_type job.resource_id db ≡ true
  IsEmptied (err e, db) = Unit

  -- The object of generated media is not in the store any more.
  abbrev IsRemoved : Database → Type 0
  IsRemoved db = is_media job.resource_type ≡ true → keeps_object job.resource_id db ≡ false

  removed_media-IsRemoved :
      (db : Database) {removed : Database}
      → removed_media env job db ≡ ok removed
      → IsRemoved removed
  removed_media-IsRemoved db {removed} h media =
      delete_local_media-keeps_object env job.resource_id db {db' = removed} (rw media at h)

  emptied-is_gone :
      (db : Database)
      → IsRemoved db
      → is_audit job.resource_type ≡ false
      → is_gone job.resource_type job.resource_id (destroyed_content job db) ≡ true
  emptied-is_gone db removed kept =
      rw kept (destroy_content-is_gone job.resource_type job.resource_id db kept removed)

  destroy_rows-is_gone :
      (now : ℕ) (db : Database) {db' : Database}
      → destroy_rows env principal job now db ≡ ok db'
      → IsRemoved db
      → is_audit job.resource_type ≡ false
      → is_gone job.resource_type job.resource_id db' ≡ true
  unfolding destroy_rows audit
  destroy_rows-is_gone now db {db'} h removed kept =
      let emptied = destroyed_content job db in
      let (buried, inserted, done) =
        >>=-ok (insert_tombstone env job now emptied) (λ d. ok (finished env principal job now d))
          h in
      let (tombstones, same) = insert_tombstone-ok env job now emptied {db' = buried} inserted in
      subst (λ d. is_gone job.resource_type job.resource_id d ≡ true) (ok_inj done)
        (subst
          (λ d. is_gone job.resource_type job.resource_id (finished env principal job now d) ≡ true)
          same
          (is_gone-bookkeeping job.resource_type job.resource_id emptied _ tombstones _ _
            ∙ emptied-is_gone db removed kept))

  without_media-IsEmptied :
      (now : ℕ) (db : Database) (r : Result Database)
      → ((removed : Database) → r ≡ ok removed → IsRemoved removed)
      → IsEmptied (without_media env principal job now db r)
  without_media-IsEmptied now db (err e) gone = tt
  without_media-IsEmptied now db (ok removed) gone =
      elim (Result-cases (destroy_rows env principal job now removed)) [
        | inr (e, raised) ↦ rw raised tt
        | inl (done, e) ↦ elim (Bool-cases (is_audit job.resource_type)) [
          | inl kept ↦ rw (e, kept) kept
          | inr lost ↦
              rw (e, lost)
                (destroy_rows-is_gone now removed {db' = done} e (gone removed (λ i. ok removed))
                  lost)
        ]
      ]

  -- An execution that reports the resource as deleted has destroyed it.
  abbrev pub IsTruthful : Result DeletionState × Database → Type 0
  IsTruthful (ok deleted, db) = is_gone job.resource_type job.resource_id db ≡ true
  IsTruthful (ok retained_exception, db) = is_audit job.resource_type ≡ true
  IsTruthful _ = Unit

  failed-IsTruthful :
      (diagnostic : String) (db : Database)
      → IsTruthful (
        ok (record_failure env principal job diagnostic db).0,
        (record_failure env principal job diagnostic db).1,
      )
  unfolding record_failure
  failed-IsTruthful diagnostic db = elim (Bool-cases (is_last job)) [
    | inl e ↦ rw e tt
    | inr e ↦ rw e tt
  ]

  settled-IsTruthful :
      (r : Result Bool × Database) → IsEmptied r → IsTruthful (settled env principal job r)
  settled-IsTruthful (ok true, db) h = h
  settled-IsTruthful (ok false, db) h = h
  settled-IsTruthful (err (os_error e), db) h =
      failed-IsTruthful "local_media_cleanup_unavailable" db
  settled-IsTruthful (err e, db) h = tt

  planned-IsTruthful :
      (plan : Option String) (db : Database) → IsTruthful (planned env principal job db plan)
  unfolding destroy
  planned-IsTruthful none db = settled-IsTruthful (destroy env principal job db) (
      without_media-IsEmptied (env.now db.ticks) (ticked db) (removed_media env job (ticked db))
        (λ removed h. removed_media-IsRemoved (ticked db) {removed = removed} h))
  planned-IsTruthful (some diagnostic) db = failed-IsTruthful diagnostic db

-- When the execution of a job that was not final reports the resource as deleted, the rows of the
-- resource are gone or carry the marker in place of their content; of generated media, also each
-- object that a receipt of the artifact names is gone from the store (a receipt that was blanked
-- before names none). When it reports an exception, the resource is audit metadata.
pub execute_one-IsTruthful :
    (env : Environment) (principal : DemoPrincipal) (job_id : String) (db : Database) (x : JobRow)
    → find (λ j. j.id == job_id) db.retention_jobs ≡ some x
    → is_final x.state ≡ false
    → IsTruthful env principal (deletion_job x) (execute_one env principal job_id db)
unfolding execute_one attempt_deletion
execute_one-IsTruthful env principal job_id db x found open_ =
    rw (found, open_)
      (planned-IsTruthful env principal (deletion_job x) (env.diagnostic_for (deletion_job x))
        (start_deletion env principal (deletion_job x) (env.now db.ticks) (ticked db)))
