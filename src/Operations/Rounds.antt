-- ===== src/Operations/Rounds.antt =====
-- Whole runs of retention keep the deletion jobs sound.
use phone_law.Prelude.{
  ℕ, String, ◌≡◌, refl, inl, inr, false, none, some, List, [], ◌∷◌, ◌==◌, arith, find, find_own,
  select, update_where, find-update_where, All, All-map, find-All, find-All_unique, Bool-cases,
  Option-cases, Option, if◌then◌else◌,
}
use phone_law.Prelude.Outcome.{andthen-keeps}
use phone_law.Policy.{DemoPrincipal}
use phone_law.Operations.Contracts.{DeletionJob, is_final, RunCounts}
use phone_law.Operations.Tables.{Database, Environment, JobRow, TombstoneRow}
use phone_law.Operations.Audit.{audit, set_job, job_of, ticked}
use phone_law.Operations.Evaluation.{record_run}
use phone_law.Operations.Execution.{execute_one}
use phone_law.Operations.Runs.{
  is_deleting, recovered, recover_rows, recover_interrupted, execute_jobs, execute_scheduled,
  count_outcome, retry_deletion, requested, is_retry_scheduled, reread, recorded_execution,
  runnable_jobs,
}
use phone_law.Operations.Soundness.{IsSoundJob, IsSoundDatabase, set_job-IsSoundJobs}
use phone_law.Operations.Steps.{execute_one-IsSound}

recovered-IsSoundJob :
    (now : ℕ) (ts : List TombstoneRow) (x : JobRow)
    → is_final x.state ≡ false
    → IsSoundJob ts x
    → IsSoundJob ts (recovered now x)
recovered-IsSoundJob now ts x open_ h = record {
  bounded = h.bounded;
  pending = λ e. h.pending open_;
  completed = ground (arith, h.completed);
  exhausted = λ e. absurd (ground arith);
  buried = λ e. absurd (ground arith);
  kept = λ e. absurd (ground arith);
  excepted = λ e. absurd (ground arith);
}

requested-IsSoundJob :
    (now : ℕ) (ts : List TombstoneRow) (x : JobRow)
    → IsSoundJob ts x
    → IsSoundJob ts (requested now x)
requested-IsSoundJob now ts x h = record {
  bounded = h.bounded;
  pending = h.pending;
  completed = h.completed;
  exhausted = h.exhausted;
  buried = h.buried;
  kept = h.kept;
  excepted = h.excepted;
}

-- The identifier of a row finds a job that is not final.
pub record IsInterrupted (jobs : List JobRow) (row : JobRow) : Type 0 where
  pub job : JobRow
  pub found : find (λ j. j.id == row.id) jobs ≡ some job
  pub open_ : is_final job.state ≡ false

pub recovered-IsInterrupted :
    (now : ℕ) (k : String) (jobs : List JobRow) (row : JobRow)
    → IsInterrupted jobs row
    → IsInterrupted (update_where (λ j. j.id == k) (recovered now) jobs) row
recovered-IsInterrupted now k jobs row h = record {
  job = if h.job.id == k then recovered now h.job else h.job;
  found =
      find-update_where (λ (j : JobRow). j.id == row.id) (λ j. j.id == k) (recovered now)
        (λ j. refl) jobs {x = h.job} h.found;
  open_ = ground (arith, h.open_);
}

pub IsInterrupted-All :
    (jobs : List JobRow) (rows : List JobRow)
    → All (λ r. find (λ j. j.id == r.id) jobs ≡ some r) rows
    → All (IsInterrupted jobs) (select (λ j. is_deleting j.state) rows)
IsInterrupted-All jobs [] h = tt
IsInterrupted-All jobs (r ∷ rows) h = elim (Bool-cases (is_deleting r.state)) [
  | inl e ↦
      rw e (record { job = r; found = h.0; open_ = ground arith }, IsInterrupted-All jobs rows h.1)
  | inr e ↦ rw e (IsInterrupted-All jobs rows h.1)
]

module _ (env : Environment) (principal : DemoPrincipal) where
  recover_rows-IsSound :
      (now : ℕ) (rows : List JobRow) (db : Database)
      → All (IsInterrupted db.retention_jobs) rows
      → IsSoundDatabase db
      → IsSoundDatabase (recover_rows env principal now rows db)
  unfolding recover_rows audit
  recover_rows-IsSound now [] db i h = h
  recover_rows-IsSound now (row ∷ rows) db i h =
      let found =
        find_own (λ (j : JobRow). j.id) row.id db.retention_jobs {x = i.0.job} i.0.found in
      recover_rows-IsSound now rows
        (audit env principal "retention_restart_recovered" _ row.resource_id "retry_scheduled" now
          (set_job row.id (recovered now) db))
        (All-map (IsInterrupted db.retention_jobs)
          (IsInterrupted (update_where (λ j. j.id == row.id) (recovered now) db.retention_jobs))
          (recovered-IsInterrupted now row.id db.retention_jobs) rows i.1)
        (set_job-IsSoundJobs row.id (recovered now) db.retention_jobs db.retention_tombstones
          {x = i.0.job} (λ j. refl) i.0.found
          (recovered-IsSoundJob now db.retention_tombstones i.0.job i.0.open_ (
            find-All (IsSoundJob db.retention_tombstones) (λ j. j.id == row.id) db.retention_jobs
              {x = i.0.job} h.sound i.0.found))
          h)

  recover_interrupted-IsSound :
      (db : Database)
      → IsSoundDatabase db
      → IsSoundDatabase (recover_interrupted env principal db).1
  unfolding recover_interrupted
  recover_interrupted-IsSound db h =
      recover_rows-IsSound (env.now db.ticks) (select (λ j. is_deleting j.state) db.retention_jobs)
        (ticked db)
        (IsInterrupted-All db.retention_jobs db.retention_jobs
          (find-All_unique (λ (j : JobRow). j.id) db.retention_jobs h.unique))
        h

  execute_jobs-IsSound :
      (ids : List String) (counts : RunCounts) (db : Database)
      → IsSoundDatabase db
      → IsSoundDatabase (execute_jobs env principal ids counts db).1
  unfolding execute_jobs
  execute_jobs-IsSound [] counts db h = h
  execute_jobs-IsSound (id ∷ ids) counts db h =
      andthen-keeps IsSoundDatabase (execute_one env principal id db) _
        (execute_one-IsSound env principal id db h)
        (λ state next. execute_jobs-IsSound ids (count_outcome state counts) next)

  -- A run over the scheduled jobs keeps the tables sound: interrupted jobs are scheduled again and
  -- each selected job is executed, up to an exception, if one is raised.
  pub execute_scheduled-IsSound :
      (db : Database) → IsSoundDatabase db → IsSoundDatabase (execute_scheduled env principal db).1
  unfolding execute_scheduled record_run
  execute_scheduled-IsSound db h =
      let r = recover_interrupted env principal (ticked db) in
      let ids = runnable_jobs env (env.now db.ticks) r.1 in
      andthen-keeps IsSoundDatabase (execute_jobs env principal ids _ r.1)
        (recorded_execution env principal (env.now db.ticks))
        (execute_jobs-IsSound ids _ r.1 (recover_interrupted-IsSound (ticked db) h))
        (λ counts ready ok_. ok_)

  reread-IsSound :
      (job : Option DeletionJob) (db : Database)
      → IsSoundDatabase db
      → IsSoundDatabase (reread job db).1
  reread-IsSound none db h = h
  reread-IsSound (some job) db h = h

  -- A requested retry keeps the tables sound, whether it is refused, fails or succeeds.
  pub retry_deletion-IsSound :
      (job_id : String) (db : Database)
      → IsSoundDatabase db
      → IsSoundDatabase (retry_deletion env principal job_id db).1
  unfolding retry_deletion audit
  retry_deletion-IsSound job_id db h =
      elim (Option-cases (find (λ j. j.id == job_id) db.retention_jobs)) [
        | inl e ↦ rw e h
        | inr (x, e) ↦ elim (Bool-cases (is_retry_scheduled x.state)) [
          | inr other ↦ rw (e, other) h
          | inl retryable ↦
              let now = env.now db.ticks in
              let asked =
                audit env principal "retention_retry_requested" _ x.resource_id "scheduled" now
                  (set_job job_id (requested now) (ticked db)) in
              rw (e, retryable)
                (andthen-keeps IsSoundDatabase (execute_one env principal job_id asked) _
                  (execute_one-IsSound env principal job_id asked (
                    set_job-IsSoundJobs job_id (requested now) db.retention_jobs
                      db.retention_tombstones {x = x} (λ j. refl) e
                      (requested-IsSoundJob now db.retention_tombstones x (
                        find-All (IsSoundJob db.retention_tombstones) (λ j. j.id == job_id)
                          db.retention_jobs {x = x} h.sound e))
                      h))
                  (λ state next. reread-IsSound (job_of job_id next) next))
        ]
      ]
