-- ===== src/Operations/Execution.antt =====
-- The execution of one deletion job: `_execute_one`, `_record_failure` and `_destroy`. A method of
-- several transactions returns the database also when it raises.
use Prim.Native.String.{slice}
use phone_law.Prelude.{
  ℕ, ◌+◌, String, Bool, true, false, ◌&&◌, Option, none, some, ◌∷◌, ◌==◌, any, leb, if◌then◌else◌,
}
use phone_law.Prelude.Outcome.{Result, ◌>>=◌, ok, err, not_found, integrity_error, os_error}
use phone_law.Policy.{DemoPrincipal}
use phone_law.Operations.Contracts.{
  RetentionResource, resource_value, same_resource, DeletionState, DeletionJob, minutes, is_final,
  deleting, retry_scheduled, deleted, deletion_failed, retained_exception, generated_media,
  audit_metadata,
}
use phone_law.Operations.Tables.{Database, Environment, JobRow, TombstoneRow}
use phone_law.Operations.Audit.{audit, ticked, tombstone_key, job_of, set_job}
use phone_law.Operations.Media.{delete_local_media}
use phone_law.Operations.Destruction.{destroy_content}

-- `MAX_DELETION_ATTEMPTS`
abbrev pub max_deletion_attempts : ℕ
max_deletion_attempts = 3

abbrev pub starting : ℕ → JobRow → JobRow
starting now j = record j { state = deleting; updated_at = now }

abbrev pub is_last : DeletionJob → Bool
is_last job = leb max_deletion_attempts (job.attempt_count + 1)

abbrev pub after_failure : DeletionJob → String → ℕ → JobRow → JobRow
after_failure job diagnostic now j = record j {
  state = if is_last job then deletion_failed else retry_scheduled;
  attempt_count = job.attempt_count + 1;
  diagnostic_code = some diagnostic;
  next_attempt_at = if is_last job then none else some (now + minutes (job.attempt_count + 1));
  completed_at = if is_last job then some now else none;
  updated_at = now;
}

abbrev pub is_audit : RetentionResource → Bool
is_audit audit_metadata = true
is_audit _ = false

abbrev pub is_media : RetentionResource → Bool
is_media generated_media = true
is_media _ = false

abbrev pub is_tombstone_for : RetentionResource → String → TombstoneRow → Bool
is_tombstone_for resource resource_id t =
    same_resource t.resource_type resource && t.resource_id == resource_id

abbrev pub after_destruction : DeletionJob → ℕ → JobRow → JobRow
after_destruction job now j = record j {
  state = if is_audit job.resource_type then retained_exception else deleted;
  attempt_count = job.attempt_count + 1;
  diagnostic_code = if is_audit job.resource_type then some "append_only_audit_metadata" else none;
  next_attempt_at = none;
  completed_at = some now;
  updated_at = now;
}

abbrev pub destroyed_content : DeletionJob → Database → Database
destroyed_content job db =
    if is_audit job.resource_type then db else destroy_content job.resource_type job.resource_id db

unfoldable pub tombstone : Environment → DeletionJob → ℕ → TombstoneRow
tombstone env job now = record {
  id = slice (env.sha256 (tombstone_key job.resource_type job.resource_id)) 0 32;
  resource_type = job.resource_type;
  resource_id = job.resource_id;
  configuration_version = job.configuration_version;
  result = if is_audit job.resource_type then "retained_exception" else "content_destroyed";
  exception_code = if is_audit job.resource_type then some "append_only_audit_metadata" else none;
  destroyed_at = now;
}

-- `INSERT … ON CONFLICT (resource_type, resource_id) DO NOTHING`
unfoldable pub insert_tombstone : Environment → DeletionJob → ℕ → Database → Result Database
unfolding tombstone
insert_tombstone env job now db =
    if any (is_tombstone_for job.resource_type job.resource_id) db.retention_tombstones
    then ok db
    else if any (λ t. t.id == (tombstone env job now).id) db.retention_tombstones
    then err (integrity_error "retention_tombstones")
    else ok (record db { retention_tombstones = tombstone env job now ∷ db.retention_tombstones })

abbrev pub removed_media : Environment → DeletionJob → Database → Result Database
removed_media env job db =
    if is_media job.resource_type then delete_local_media env job.resource_id db else ok db

module _ (env : Environment) (principal : DemoPrincipal) where
  -- The first transaction of `_execute_one`.
  unfoldable pub start_deletion : DeletionJob → ℕ → Database → Database
  unfolding audit
  start_deletion job now db =
      audit env principal "retention_deletion_started" (resource_value job.resource_type)
        job.resource_id "deleting" now (set_job job.job_id (starting now) db)

  unfoldable pub record_failure : DeletionJob → String → Database → DeletionState × Database
  unfolding audit
  record_failure job diagnostic db =
      let now = env.now db.ticks in
      (
        if is_last job then deletion_failed else retry_scheduled,
        audit env principal
            (if is_last job then "retention_deletion_failed" else "retention_retry_scheduled")
            (resource_value job.resource_type) job.resource_id
            (if is_last job then "terminal" else "retry_scheduled") now
            (set_job job.job_id (after_failure job diagnostic now) (ticked db)),
      )

  abbrev pub finished : DeletionJob → ℕ → Database → Database
  finished job now db =
      audit env principal
        (if is_audit job.resource_type
          then "retention_exception_recorded"
          else "retention_content_destroyed")
        (resource_value job.resource_type) job.resource_id
        (if is_audit job.resource_type then "retained_exception" else "deleted") now
        (set_job job.job_id (after_destruction job now) db)

  -- The transaction of `_destroy`.
  unfoldable pub destroy_rows : DeletionJob → ℕ → Database → Result Database
  unfolding insert_tombstone audit
  destroy_rows job now db =
      insert_tombstone env job now (destroyed_content job db)
      >>= (λ with_tombstone. ok (finished job now with_tombstone))

  abbrev pub committed : DeletionJob → Database → Result Database → Result Bool × Database
  committed job removed (ok done) = (ok (is_audit job.resource_type), done)
  committed job removed (err e) = (err e, removed)

  -- The object is deleted before the transaction, which does not bring it back when it fails.
  abbrev pub without_media : DeletionJob → ℕ → Database → Result Database → Result Bool × Database
  without_media job now db (ok removed) = committed job removed (destroy_rows job now removed)
  without_media job now db (err e) = (err e, db)

  unfoldable pub destroy : DeletionJob → Database → Result Bool × Database
  unfolding destroy_rows
  destroy job db =
      without_media job (env.now db.ticks) (ticked db) (removed_media env job (ticked db))

  abbrev pub settled : DeletionJob → Result Bool × Database → Result DeletionState × Database
  settled job (ok retained, db) = (ok (if retained then retained_exception else deleted), db)
  settled job (err (os_error _), db) =
      let (state, recorded) = record_failure job "local_media_cleanup_unavailable" db in
      (ok state, recorded)
  settled job (err e, db) = (err e, db)

  -- After the first transaction: the injected failure, if there is one, or the destruction.
  abbrev pub planned : DeletionJob → Database → Option String → Result DeletionState × Database
  planned job db (some diagnostic) =
      let (state, recorded) = record_failure job diagnostic db in (ok state, recorded)
  planned job db none = settled job (destroy job db)

  unfoldable pub attempt_deletion : DeletionJob → Database → Result DeletionState × Database
  attempt_deletion job db = planned job db (env.diagnostic_for job)

  abbrev pub taken_up : Option DeletionJob → Database → Result DeletionState × Database
  taken_up none db = (err (not_found "deletion_job_not_found"), ticked db)
  taken_up (some job) db =
      if is_final job.state
      then (ok job.state, ticked db)
      else attempt_deletion job (start_deletion job (env.now db.ticks) (ticked db))

  unfoldable pub execute_one : String → Database → Result DeletionState × Database
  execute_one job_id db = taken_up (job_of job_id db) db
