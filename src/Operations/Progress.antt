-- ===== src/Operations/Progress.antt =====
-- Every execution that returns uses up an attempt, so that a job is final after three of them.
use phone_law.Prelude.{
  ℕ, ◌+◌, String, ◌≡◌, refl, ap, ◌∙◌, subst, inl, inr, Bool, false, none, some, ◌==◌, find,
  find_own, find-update_own, Option, if◌then◌else◌,
}
use phone_law.Prelude.Outcome.{Result, ok, err, os_error, ok_inj, Result-cases, >>=-ok}
use phone_law.Policy.{DemoPrincipal}
use phone_law.Operations.Contracts.{DeletionState, deleted, retained_exception, is_final}
use phone_law.Operations.Tables.{Database, Environment, JobRow}
use phone_law.Operations.Audit.{audit, deletion_job, ticked}
use phone_law.Operations.Frames.{destroyed_content-retention, removed_media-ok, insert_tombstone-ok}
use phone_law.Operations.Execution.{
  is_audit, destroyed_content, finished, destroy_rows, removed_media, without_media, destroy,
  settled, insert_tombstone, record_failure, after_failure, after_destruction, starting, planned,
  attempt_deletion, start_deletion, execute_one,
}
use phone_law.Operations.History.{IsFound}

-- The row that the identifier of `x` finds is one attempt further on, in the state given.
pub record IsSpent (x : JobRow) (s : DeletionState) (db : Database) : Type 0 where
  pub row : JobRow
  pub found : IsFound x.id row db
  pub count : row.attempt_count ≡ x.attempt_count + 1
  pub state : row.state ≡ s

module _ (env : Environment) (principal : DemoPrincipal) (x : JobRow) (began : ℕ) where
  -- Of a result: an attempt is used up when there is one.
  abbrev pub HasProgressed : Result DeletionState × Database → Type 0
  HasProgressed (ok s, db) = IsSpent x s db
  HasProgressed (err e, db) = Unit

  abbrev outcome_state : Bool → DeletionState
  outcome_state retained = if retained then retained_exception else deleted

  -- Of a destruction: it has used up an attempt, or else the job is still started.
  abbrev HasDestroyed : Result Bool × Database → Type 0
  HasDestroyed (ok retained, db) = IsSpent x (outcome_state retained) db
  HasDestroyed (err e, db) = IsFound x.id (starting began x) db

  record_failure-HasProgressed :
      (diagnostic : String) (db : Database)
      → IsFound x.id (starting began x) db
      → IsSpent x
          (record_failure env principal (deletion_job x) diagnostic db).0
          (record_failure env principal (deletion_job x) diagnostic db).1
  unfolding record_failure audit
  record_failure-HasProgressed diagnostic db h =
      let f = after_failure (deletion_job x) diagnostic (env.now db.ticks) in
      record {
        row = f (starting began x);
        found =
            find-update_own (λ (j : JobRow). j.id) f db.retention_jobs {x = starting began x}
              (λ j. refl) h;
        count = refl;
        state = refl;
      }

  destroy_rows-IsSpent :
      (now : ℕ) (db : Database) {db' : Database}
      → destroy_rows env principal (deletion_job x) now db ≡ ok db'
      → IsFound x.id (starting began x) db
      → IsSpent x (outcome_state (is_audit x.resource_type)) db'
  unfolding destroy_rows audit
  destroy_rows-IsSpent now db {db'} h found =
      let emptied = destroyed_content (deletion_job x) db in
      let (buried, inserted, done) =
        >>=-ok (insert_tombstone env (deletion_job x) now emptied)
          (λ d. ok (finished env principal (deletion_job x) now d)) h in
      let (tombstones, same) =
        insert_tombstone-ok env (deletion_job x) now emptied {db' = buried} inserted in
      let here : IsFound x.id (starting began x) emptied =
        ap (λ js. find (λ j. j.id == x.id) js) (destroyed_content-retention (deletion_job x) db).0
        ∙ found in
      let there : IsFound x.id (starting began x) buried =
        subst (IsFound x.id (starting began x)) same here in
      let f = after_destruction (deletion_job x) now in
      subst (IsSpent x (outcome_state (is_audit x.resource_type))) (ok_inj done) (record {
        row = f (starting began x);
        found =
            find-update_own (λ (j : JobRow). j.id) f buried.retention_jobs {x = starting began x}
              (λ j. refl) there;
        count = refl;
        state = refl;
      })

  without_media-HasDestroyed :
      (now : ℕ) (db : Database) (r : Result Database)
      → removed_media env (deletion_job x) db ≡ r
      → IsFound x.id (starting began x) db
      → HasDestroyed (without_media env principal (deletion_job x) now db r)
  without_media-HasDestroyed now db (err e) h found = found
  without_media-HasDestroyed now db (ok removed) h found =
      let (objects, same) = removed_media-ok env (deletion_job x) db {db' = removed} h in
      let after : IsFound x.id (starting began x) removed =
        ap (λ d. find (λ j. j.id == x.id) d.retention_jobs) same ∙ found in
      elim (Result-cases (destroy_rows env principal (deletion_job x) now removed)) [
        | inr (e, raised) ↦ rw raised after
        | inl (done, e) ↦ rw e (destroy_rows-IsSpent now removed {db' = done} e after)
      ]

  settled-HasProgressed :
      (r : Result Bool × Database)
      → HasDestroyed r
      → HasProgressed (settled env principal (deletion_job x) r)
  settled-HasProgressed (ok retained, db) h = h
  settled-HasProgressed (err (os_error e), db) h =
      record_failure-HasProgressed "local_media_cleanup_unavailable" db h
  settled-HasProgressed (err e, db) h = tt

  planned-HasProgressed :
      (plan : Option String) (db : Database)
      → IsFound x.id (starting began x) db
      → HasProgressed (planned env principal (deletion_job x) db plan)
  unfolding destroy
  planned-HasProgressed none db h =
      settled-HasProgressed (destroy env principal (deletion_job x) db) (
        without_media-HasDestroyed (env.now db.ticks) (ticked db)
          (removed_media env (deletion_job x) (ticked db)) refl h)
  planned-HasProgressed (some diagnostic) db h = record_failure-HasProgressed diagnostic db h

-- An execution of a job that is not final either raises, or leaves the job in the state that it
-- returns with one attempt more.
pub execute_one-HasProgressed :
    (env : Environment) (principal : DemoPrincipal) (job_id : String) (db : Database) (x : JobRow)
    → find (λ j. j.id == job_id) db.retention_jobs ≡ some x
    → is_final x.state ≡ false
    → HasProgressed env principal x (env.now db.ticks) (execute_one env principal job_id db)
unfolding execute_one attempt_deletion start_deletion audit
execute_one-HasProgressed env principal job_id db x found open_ =
    let began = env.now db.ticks in
    rw (found, open_)
      (planned-HasProgressed env principal x began (env.diagnostic_for (deletion_job x))
        (start_deletion env principal (deletion_job x) began (ticked db))
        (find-update_own (λ (j : JobRow). j.id) (starting began) db.retention_jobs {x = x}
          (λ j. refl) (find_own (λ (j : JobRow). j.id) job_id db.retention_jobs {x = x} found)))
