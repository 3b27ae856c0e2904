-- ===== src/Operations/Steps.antt =====
-- Each step of the execution of a job keeps the deletion jobs sound.
use phone_law.Prelude.{
  ℕ, String, ◌≡◌, refl, subst, ap, inl, inr, Bool, true, false, none, some, ◌∷◌, ◌==◌, arith, any,
  find, find-update_own, find_own, eq_refl, Bool-cases, Option-cases, Option,
}
use phone_law.Prelude.Outcome.{Result, ok, err, os_error, Result-cases, >>=-ok}
use phone_law.Policy.{DemoPrincipal}
use phone_law.Operations.Contracts.{is_final}
use phone_law.Operations.Tables.{Database, Environment, JobRow}
use phone_law.Operations.Audit.{audit, deletion_job, ticked}
use phone_law.Operations.Execution.{
  start_deletion, starting, record_failure, after_failure, after_destruction, insert_tombstone,
  destroy_rows, destroy, attempt_deletion, execute_one, is_tombstone_for, settled,
  destroyed_content, without_media, planned, removed_media, finished, tombstone,
}
use phone_law.Operations.Frames.{destroyed_content-retention, removed_media-ok}
use phone_law.Operations.Soundness.{
  more_tombstones, IsSoundJob, IsSoundDatabase, tombstone-IsSoundJobs, set_job-IsSoundJobs,
}
use phone_law.Operations.Standing.{
  starting-IsSoundJob, after_failure-IsSoundJob, after_destruction-IsSoundJob, same_resource_self,
  IsOpen, own-IsSoundJob,
}

module _ (env : Environment) (principal : DemoPrincipal) (x : JobRow) (began : ℕ) where
  -- The tables after the first transaction, and after what leaves jobs and tombstones alone.
  record IsStarted (db : Database) : Type 0 where
    found : find (λ j. j.id == x.id) db.retention_jobs ≡ some (starting began x)
    open_ : is_final x.state ≡ false
    sound : IsSoundJob db.retention_tombstones x
    all : IsSoundDatabase db

  start_deletion-IsStarted :
      (db : Database)
      → IsOpen x db
      → IsStarted (start_deletion env principal (deletion_job x) began db)
  unfolding start_deletion audit
  start_deletion-IsStarted db h =
      let own = own-IsSoundJob x db h in
      record {
        found =
            find-update_own (λ (j : JobRow). j.id) (starting began) db.retention_jobs {x = x}
              (λ j. refl) h.found;
        open_ = h.open_;
        sound = own;
        all =
            set_job-IsSoundJobs x.id (starting began) db.retention_jobs db.retention_tombstones
              {x = x} (λ j. refl) h.found
              (starting-IsSoundJob began db.retention_tombstones x h.open_ own) h.all;
      }

  record_failure-IsSound :
      (diagnostic : String) (db : Database)
      → IsStarted db
      → IsSoundDatabase (record_failure env principal (deletion_job x) diagnostic db).1
  unfolding record_failure audit
  record_failure-IsSound diagnostic db h =
      set_job-IsSoundJobs x.id (after_failure (deletion_job x) diagnostic (env.now db.ticks))
        db.retention_jobs db.retention_tombstones {x = starting began x} (λ j. refl) h.found
        (after_failure-IsSoundJob diagnostic (env.now db.ticks) db.retention_tombstones x h.open_
          h.sound began)
        h.all

  -- The jobs are as before and the tombstone is there.
  insert_tombstone-ok :
      (now : ℕ) (db : Database) {db' : Database}
      → insert_tombstone env (deletion_job x) now db ≡ ok db'
      → IsStarted db
      → IsStarted db'
        × (any (is_tombstone_for x.resource_type x.resource_id) db'.retention_tombstones ≡ true)
  unfolding insert_tombstone tombstone
  insert_tombstone-ok now db {db'} h s =
      elim (Bool-cases
        (any (is_tombstone_for x.resource_type x.resource_id) db.retention_tombstones)) [
          | inl there ↦
              let h' : ok db ≡ ok db' = rw there at h in
              let same : db ≡ db' = cc in
              subst
                (λ d.
                  IsStarted d
                  × (any (is_tombstone_for x.resource_type x.resource_id) d.retention_tombstones
                      ≡ true))
                same (s, there)
          | inr fresh ↦
              elim (Bool-cases (
                any (λ t. t.id == (tombstone env (deletion_job x) now).id)
                  db.retention_tombstones)) [
                    | inl clash ↦ absurd (ground arith)
                    | inr free ↦
                        let grown : Database = record db {
                          retention_tombstones =
                              tombstone env (deletion_job x) now ∷ db.retention_tombstones;
                        } in
                        let h' : ok grown ≡ ok db' = rw (fresh, free) at h in
                        let same : grown ≡ db' = cc in
                        subst
                          (λ d.
                            IsStarted d
                            × (any (is_tombstone_for x.resource_type x.resource_id)
                                  d.retention_tombstones
                                ≡ true))
                          same
                          (
                            record {
                              found = s.found;
                              open_ = s.open_;
                              sound =
                                  more_tombstones (tombstone env (deletion_job x) now)
                                    db.retention_tombstones x s.sound;
                              all =
                                  tombstone-IsSoundJobs (tombstone env (deletion_job x) now)
                                    db.retention_jobs db.retention_tombstones s.all;
                            },
                            ground
                                (arith, eq_refl x.resource_id, same_resource_self x.resource_type),
                          )
                  ]
        ]

  -- What the jobs and tombstones do not notice.
  same-IsStarted :
      (db db' : Database)
      → db'.retention_jobs ≡ db.retention_jobs
      → db'.retention_tombstones ≡ db.retention_tombstones
      → IsStarted db
      → IsStarted db'
  same-IsStarted db db' jobs tombstones s = record {
    found = rw jobs s.found;
    open_ = s.open_;
    sound = rw tombstones s.sound;
    all = rw (jobs, tombstones) s.all;
  }

  -- A destruction ends with sound tables; when it raises, the job is still started.
  abbrev Settles : Result Bool × Database → Type 0
  Settles (ok _, db) = IsSoundDatabase db
  Settles (err _, db) = IsStarted db

  finished-IsSound :
      (now : ℕ) (db : Database)
      → IsStarted db
      → any (is_tombstone_for x.resource_type x.resource_id) db.retention_tombstones ≡ true
      → IsSoundDatabase (finished env principal (deletion_job x) now db)
  unfolding audit
  finished-IsSound now db s t =
      set_job-IsSoundJobs x.id (after_destruction (deletion_job x) now) db.retention_jobs
        db.retention_tombstones {x = starting began x} (λ j. refl) s.found
        (after_destruction-IsSoundJob now db.retention_tombstones x s.open_ t s.sound began) s.all

  destroy_rows-IsSound :
      (now : ℕ) (db : Database) {db' : Database}
      → destroy_rows env principal (deletion_job x) now db ≡ ok db'
      → IsStarted db
      → IsSoundDatabase db'
  unfolding destroy_rows
  destroy_rows-IsSound now db {db'} h s =
      let emptied = destroyed_content (deletion_job x) db in
      let frame = destroyed_content-retention (deletion_job x) db in
      let (buried, inserted, done) =
        >>=-ok (insert_tombstone env (deletion_job x) now emptied)
          (λ d. ok (finished env principal (deletion_job x) now d)) h in
      let (s', t) =
        insert_tombstone-ok now emptied {db' = buried} inserted
          (same-IsStarted db emptied frame.0 frame.1 s) in
      let same : finished env principal (deletion_job x) now buried ≡ db' = cc in
      subst IsSoundDatabase same (finished-IsSound now buried s' t)

  without_media-Settles :
      (now : ℕ) (db : Database) (r : Result Database)
      → removed_media env (deletion_job x) db ≡ r
      → IsStarted db
      → Settles (without_media env principal (deletion_job x) now db r)
  without_media-Settles now db (err e) h s = s
  without_media-Settles now db (ok removed) h s =
      let (objects, same) = removed_media-ok env (deletion_job x) db {db' = removed} h in
      let after : IsStarted removed =
        same-IsStarted db removed (ap (λ d. d.retention_jobs) same)
          (ap (λ d. d.retention_tombstones) same) s in
      elim (Result-cases (destroy_rows env principal (deletion_job x) now removed)) [
        | inr (e, raised) ↦ rw raised after
        | inl (done, e) ↦ rw e (destroy_rows-IsSound now removed {db' = done} e after)
      ]

  destroy-Settles :
      (db : Database) → IsStarted db → Settles (destroy env principal (deletion_job x) db)
  unfolding destroy
  destroy-Settles db s =
      without_media-Settles (env.now db.ticks) (ticked db)
        (removed_media env (deletion_job x) (ticked db)) refl
        (same-IsStarted db (ticked db) refl refl s)

  settled-IsSound :
      (r : Result Bool × Database)
      → Settles r
      → IsSoundDatabase (settled env principal (deletion_job x) r).1
  settled-IsSound (ok retained, db) h = h
  settled-IsSound (err (os_error e), db) h =
      record_failure-IsSound "local_media_cleanup_unavailable" db h
  settled-IsSound (err e, db) h = h.all

  planned-IsSound :
      (plan : Option String) (db : Database)
      → IsStarted db
      → IsSoundDatabase (planned env principal (deletion_job x) db plan).1
  planned-IsSound none db s =
      settled-IsSound (destroy env principal (deletion_job x) db) (destroy-Settles db s)
  planned-IsSound (some diagnostic) db s = record_failure-IsSound diagnostic db s

  attempt_deletion-IsSound :
      (db : Database)
      → IsStarted db
      → IsSoundDatabase (attempt_deletion env principal (deletion_job x) db).1
  unfolding attempt_deletion
  attempt_deletion-IsSound db s = planned-IsSound (env.diagnostic_for (deletion_job x)) db s

-- The execution of one job keeps the tables sound, whatever fails on the way and whether or not it
-- raises: no job has more than three attempts, a job that can still be tried has had fewer, one that
-- failed for good had three, and what is deleted or retained has its tombstone.
pub execute_one-IsSound :
    (env : Environment) (principal : DemoPrincipal) (job_id : String) (db : Database)
    → IsSoundDatabase db
    → IsSoundDatabase (execute_one env principal job_id db).1
unfolding execute_one
execute_one-IsSound env principal job_id db h =
    elim (Option-cases (find (λ j. j.id == job_id) db.retention_jobs)) [
      | inl e ↦ rw e h
      | inr (x, e) ↦ elim (Bool-cases (is_final x.state)) [
        | inl final ↦ rw (e, final) h
        | inr open_ ↦
            rw (e, open_)
              (attempt_deletion-IsSound env principal x (env.now db.ticks)
                (start_deletion env principal (deletion_job x) (env.now db.ticks) (ticked db))
                (start_deletion-IsStarted env principal x (env.now db.ticks) (ticked db) (record {
                  found = find_own (λ (j : JobRow). j.id) job_id db.retention_jobs {x = x} e;
                  open_ = open_;
                  all = h;
                })))
      ]
    ]
