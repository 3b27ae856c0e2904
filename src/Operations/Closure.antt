-- ===== src/Operations/Closure.antt =====
-- What holds of the tables through the execution of a job when each kind of write keeps it.
use phone_law.Prelude.{ℕ, String, ◌≡◌, refl, sym, subst, inl, inr, Bool, none, some, List, Option}
use phone_law.Prelude.Outcome.{Result, ok, err, os_error, ok_inj, Result-cases, >>=-ok}
use phone_law.Policy.{DemoPrincipal}
use phone_law.Operations.Contracts.{DeletionJob}
use phone_law.Operations.Tables.{Database, Environment, JobRow, TombstoneRow}
use phone_law.Operations.Audit.{audit, set_job, ticked}
use phone_law.Operations.Frames.{removed_media-ok, insert_tombstone-ok}
use phone_law.Operations.Execution.{
  destroyed_content, finished, destroy_rows, removed_media, without_media, destroy, settled,
  insert_tombstone, record_failure, after_failure, after_destruction, starting, planned,
  attempt_deletion, start_deletion,
}

-- Every kind of write of the execution of `job` keeps `P`.
pub record IsClosed (env : Environment) (principal : DemoPrincipal) (job : DeletionJob)
    (P : Database → Type 0) : Type 0 where
  pub tick : (db : Database) → P db → P (ticked db)
  pub write :
      (action target_type target_id result : String) (now : ℕ) (db : Database)
      → P db
      → P (audit env principal action target_type target_id result now db)
  pub set :
      (f : JobRow → JobRow) (db : Database)
      → ((j : JobRow) → (f j).id ≡ j.id)
      → P db
      → P (set_job job.job_id f db)
  pub empty : (db : Database) → P db → P (destroyed_content job db)
  pub bury :
      (tombstones : List TombstoneRow) (db : Database)
      → P db
      → P (record db { retention_tombstones = tombstones })
  pub remove : (objects : List String) (db : Database) → P db → P (record db { objects = objects })

module _ (env : Environment) (principal : DemoPrincipal) (job : DeletionJob) (P : Database → Type 0)
    (closed : IsClosed env principal job P) where
  record_failure-keeps :
      (diagnostic : String) (db : Database)
      → P db
      → P (record_failure env principal job diagnostic db).1
  unfolding record_failure
  record_failure-keeps diagnostic db h = closed.write _ _ _ _ _ _ (
      closed.set (after_failure job diagnostic (env.now db.ticks)) (ticked db) (λ j. refl)
        (closed.tick db h))

  destroy_rows-keeps :
      (now : ℕ) (db : Database) {db' : Database}
      → destroy_rows env principal job now db ≡ ok db'
      → P db
      → P db'
  unfolding destroy_rows
  destroy_rows-keeps now db {db'} h p =
      let (buried, inserted, done) =
        >>=-ok (insert_tombstone env job now (destroyed_content job db))
          (λ d. ok (finished env principal job now d)) h in
      let (tombstones, same) =
        insert_tombstone-ok env job now (destroyed_content job db) {db' = buried} inserted in
      subst P (ok_inj done) (
        closed.write _ _ _ _ _ _ (
          closed.set (after_destruction job now) buried (λ j. refl)
            (subst P same (closed.bury tombstones (destroyed_content job db) (closed.empty db p)))))

  without_media-keeps :
      (now : ℕ) (db : Database) (r : Result Database)
      → removed_media env job db ≡ r
      → P db
      → P (without_media env principal job now db r).1
  without_media-keeps now db (err e) h p = p
  without_media-keeps now db (ok removed) h p =
      let (objects, same) = removed_media-ok env job db {db' = removed} h in
      let after : P removed = subst P (sym same) (closed.remove objects db p) in
      elim (Result-cases (destroy_rows env principal job now removed)) [
        | inr (e, raised) ↦ rw raised after
        | inl (done, e) ↦ rw e (destroy_rows-keeps now removed {db' = done} e after)
      ]

  settled-keeps : (r : Result Bool × Database) → P r.1 → P (settled env principal job r).1
  settled-keeps (ok retained, db) p = p
  settled-keeps (err (os_error e), db) p =
      record_failure-keeps "local_media_cleanup_unavailable" db p
  settled-keeps (err e, db) p = p

  planned-keeps :
      (plan : Option String) (db : Database) → P db → P (planned env principal job db plan).1
  unfolding destroy
  planned-keeps none db p = settled-keeps (destroy env principal job db) (
      without_media-keeps (env.now db.ticks) (ticked db) (removed_media env job (ticked db)) refl
        (closed.tick db p))
  planned-keeps (some diagnostic) db p = record_failure-keeps diagnostic db p

  pub attempt_deletion-keeps :
      (now : ℕ) (db : Database)
      → P db
      → P (attempt_deletion env principal job (start_deletion env principal job now db)).1
  unfolding attempt_deletion start_deletion
  attempt_deletion-keeps now db p =
      planned-keeps (env.diagnostic_for job) _
        (closed.write _ _ _ _ _ _ (closed.set (starting now) db (λ j. refl) p))
