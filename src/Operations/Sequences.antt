-- ===== src/Operations/Sequences.antt =====
-- Sequences of retention runs, executions and retries, under any environment and principal, with
-- changes to other tables between them.
use phone_law.Prelude.{String, ◌≡◌, [], subst}
use phone_law.Prelude.Outcome.{ok}
use phone_law.Policy.{DemoPrincipal}
use phone_law.Operations.Contracts.{RetentionRunResult}
use phone_law.Operations.Tables.{Database, Environment}
use phone_law.Operations.Evaluation.{evaluate_retention}
use phone_law.Operations.Execution.{execute_one}
use phone_law.Operations.Runs.{execute_scheduled, run_retention, retry_deletion}
use phone_law.Operations.Soundness.{IsSoundDatabase, IsSoundJobs}
use phone_law.Operations.Steps.{execute_one-IsSound}
use phone_law.Operations.Rounds.{execute_scheduled-IsSound, retry_deletion-IsSound}
use phone_law.Operations.Retention.{evaluate_retention-IsSound, run_retention-IsSound}

-- The databases after any steps from one without deletion jobs. What else writes to the database
-- leaves the jobs and the tombstones as they are.
pub data Reachable : Database → Type 0 where
  empty : (db : Database) → db.retention_jobs ≡ [] → Reachable db
  written :
      (db db' : Database)
      → Reachable db
      → db.retention_jobs ≡ db'.retention_jobs
      → db.retention_tombstones ≡ db'.retention_tombstones
      → Reachable db'
  evaluated :
      (env : Environment) (principal : DemoPrincipal) (db : Database) (r : RetentionRunResult)
      (db' : Database)
      → Reachable db
      → evaluate_retention env principal db ≡ ok (r, db')
      → Reachable db'
  executed :
      (env : Environment) (principal : DemoPrincipal) (job_id : String) (db : Database)
      → Reachable db
      → Reachable (execute_one env principal job_id db).1
  scheduled_run :
      (env : Environment) (principal : DemoPrincipal) (db : Database)
      → Reachable db
      → Reachable (execute_scheduled env principal db).1
  retention_run :
      (env : Environment) (principal : DemoPrincipal) (db : Database)
      → Reachable db
      → Reachable (run_retention env principal db).1
  retried :
      (env : Environment) (principal : DemoPrincipal) (job_id : String) (db : Database)
      → Reachable db
      → Reachable (retry_deletion env principal job_id db).1

-- After any retention runs, executions and retries, with changes to other tables between them,
-- whatever fails on the way and whether they return or raise: no two jobs have
-- one identifier, no job has more than three attempts, a job that can still be tried has had fewer,
-- one that failed for good had three, what is deleted or retained as an exception has its tombstone,
-- and only audit metadata is retained, never deleted.
pub Reachable-IsSoundDatabase : (db : Database) → Reachable db → IsSoundDatabase db
Reachable-IsSoundDatabase db (empty _ none_yet) = rw none_yet (record { unique = tt; sound = tt })
Reachable-IsSoundDatabase db (written before _ r jobs tombstones) =
    subst (λ js. IsSoundJobs js db.retention_tombstones) jobs
      (subst (λ ts. IsSoundJobs before.retention_jobs ts) tombstones
        (Reachable-IsSoundDatabase before r))
Reachable-IsSoundDatabase db (evaluated env principal before result _ r h) =
    evaluate_retention-IsSound env principal before h (Reachable-IsSoundDatabase before r)
Reachable-IsSoundDatabase _ (executed env principal job_id before r) =
    execute_one-IsSound env principal job_id before (Reachable-IsSoundDatabase before r)
Reachable-IsSoundDatabase _ (scheduled_run env principal before r) =
    execute_scheduled-IsSound env principal before (Reachable-IsSoundDatabase before r)
Reachable-IsSoundDatabase _ (retention_run env principal before r) =
    run_retention-IsSound env principal before (Reachable-IsSoundDatabase before r)
Reachable-IsSoundDatabase _ (retried env principal job_id before r) =
    retry_deletion-IsSound env principal job_id before (Reachable-IsSoundDatabase before r)
