-- ===== src/Operations/Runs.antt =====
-- Runs over the deletion jobs: `recover_interrupted`, `execute_scheduled`, `run_retention` and
-- `retry_deletion`.
use phone_law.Prelude.{
  ℕ, ◌+◌, String, Bool, true, false, ◌&&◌, Option, none, some, List, [], ◌∷◌, select, length, leb,
  ltb, eqb, map, if◌then◌else◌, order_by,
}
use phone_law.Prelude.Outcome.{Result, ok, err, ◌andthen◌, not_found, conflict, runtime_error}
use phone_law.Policy.{DemoPrincipal}
use phone_law.Operations.Contracts.{
  resource_value, position, DeletionState, DeletionJob, RunCounts, RetentionRunResult, scheduled,
  deleting, retry_scheduled, deleted, deletion_failed, retained_exception, deletion_execution,
}
use phone_law.Operations.Tables.{Database, Environment, JobRow}
use phone_law.Operations.Audit.{audit, ticked, job_of, set_job}
use phone_law.Operations.Evaluation.{record_run, evaluate_retention}
use phone_law.Operations.Execution.{execute_one}

abbrev pub is_deleting : DeletionState → Bool
is_deleting deleting = true
is_deleting _ = false

abbrev pub recovered : ℕ → JobRow → JobRow
recovered now j = record j {
  state = retry_scheduled;
  diagnostic_code = some "restart_recovered";
  next_attempt_at = some now;
  updated_at = now;
}

-- `ORDER BY scheduled_at, resource_order, id`
abbrev pub runs_before : Environment → JobRow → JobRow → Bool
runs_before env a b =
    if eqb a.scheduled_at b.scheduled_at
    then (if eqb (position a.resource_type) (position b.resource_type)
        then env.precedes a.id b.id
        else ltb (position a.resource_type) (position b.resource_type))
    else ltb a.scheduled_at b.scheduled_at

abbrev pub is_due : ℕ → Option ℕ → Bool
is_due now none = true
is_due now (some at) = leb at now

abbrev pub is_waiting : DeletionState → Bool
is_waiting scheduled = true
is_waiting retry_scheduled = true
is_waiting _ = false

abbrev pub is_runnable : ℕ → JobRow → Bool
is_runnable started_at j = is_waiting j.state && is_due started_at j.next_attempt_at

abbrev pub count_outcome : DeletionState → RunCounts → RunCounts
count_outcome deleted c = record c { deleted = c.deleted + 1 }
count_outcome retry_scheduled c = record c { retry_scheduled = c.retry_scheduled + 1 }
count_outcome deletion_failed c = record c { terminal_failed = c.terminal_failed + 1 }
count_outcome retained_exception c = record c { retained_exceptions = c.retained_exceptions + 1 }
count_outcome _ c = c

abbrev recovered_only : ℕ → RunCounts
recovered_only n = record {
  evaluated = 0;
  scheduled = 0;
  not_due = 0;
  recovered = n;
  deleted = 0;
  retry_scheduled = 0;
  terminal_failed = 0;
  retained_exceptions = 0;
}

-- The counts of the evaluation with those of the execution.
abbrev combined : RetentionRunResult → RetentionRunResult → RetentionRunResult
combined evaluation execution = record execution {
  counts = record execution.counts {
    evaluated = evaluation.counts.evaluated;
    scheduled = evaluation.counts.scheduled;
    not_due = evaluation.counts.not_due;
  };
}

abbrev pub requested : ℕ → JobRow → JobRow
requested now j = record j { next_attempt_at = some now; updated_at = now }

abbrev pub is_retry_scheduled : DeletionState → Bool
is_retry_scheduled retry_scheduled = true
is_retry_scheduled _ = false

abbrev pub reread : Option DeletionJob → Database → Result DeletionJob × Database
reread none db = (err (runtime_error "deletion_job_unavailable"), db)
reread (some job) db = (ok job, db)

unfoldable pub runnable_jobs : Environment → (started_at : ℕ) → Database → List String
runnable_jobs env started_at db =
    map (λ j. j.id) (order_by (runs_before env) (select (is_runnable started_at) db.retention_jobs))

module _ (env : Environment) (principal : DemoPrincipal) where
  unfoldable pub recover_rows : ℕ → List JobRow → Database → Database
  unfolding audit
  recover_rows now [] db = db
  recover_rows now (row ∷ rows) db = recover_rows now rows (
      audit env principal "retention_restart_recovered" (resource_value row.resource_type)
        row.resource_id "retry_scheduled" now (set_job row.id (recovered now) db))

  unfoldable pub recover_interrupted : Database → ℕ × Database
  unfolding recover_rows
  recover_interrupted db =
      let rows = select (λ j. is_deleting j.state) db.retention_jobs in
      (length rows, recover_rows (env.now db.ticks) rows (ticked db))

  -- The loop over the selected jobs: an exception leaves it.
  unfoldable pub execute_jobs : List String → RunCounts → Database → Result RunCounts × Database
  execute_jobs [] counts db = (ok counts, db)
  execute_jobs (job_id ∷ rest) counts db =
      execute_one env principal job_id db
      andthen (λ state next. execute_jobs rest (count_outcome state counts) next)

  abbrev pub recorded_execution :
      (started_at : ℕ) → RunCounts → Database → Result RetentionRunResult × Database
  recorded_execution started_at counts db =
      let r =
        record_run env principal deletion_execution counts started_at (env.now db.ticks)
          (ticked db) in
      (ok r.0, r.1)

  unfoldable pub execute_scheduled : Database → Result RetentionRunResult × Database
  unfolding recover_interrupted runnable_jobs execute_jobs
  execute_scheduled db =
      let started_at = env.now db.ticks in
      let (count, ready) = recover_interrupted (ticked db) in
      execute_jobs (runnable_jobs env started_at ready) (recovered_only count) ready
      andthen recorded_execution started_at

  abbrev pub evaluated_run :
      Database → Result (RetentionRunResult × Database) → Result RetentionRunResult × Database
  evaluated_run db (err e) = (err e, db)
  evaluated_run db (ok (evaluation, ready)) =
      execute_scheduled ready
      andthen (λ execution executed. (ok (combined evaluation execution), executed))

  unfoldable pub run_retention : Database → Result RetentionRunResult × Database
  unfolding execute_scheduled
  run_retention db = evaluated_run db (evaluate_retention env principal db)

  abbrev pub retried : String → Option DeletionJob → Database → Result DeletionJob × Database
  retried job_id none db = (err (not_found "deletion_job_not_found"), ticked db)
  retried job_id (some job) db =
      let now = env.now db.ticks in
      if is_retry_scheduled job.state
      then execute_one env principal job_id (
          audit env principal "retention_retry_requested" (resource_value job.resource_type)
            job.resource_id "scheduled" now (set_job job_id (requested now) (ticked db)))
        andthen (λ _ executed. reread (job_of job_id executed) executed)
      else (err (conflict "deletion_job_not_retryable"), ticked db)

  unfoldable pub retry_deletion : String → Database → Result DeletionJob × Database
  retry_deletion job_id db = retried job_id (job_of job_id db) db
