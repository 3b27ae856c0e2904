-- ===== src/Operations/Examples.antt =====
-- Invented tables of a few resources, followed through retention by evaluation.
use phone_law.Prelude.{
  ℕ, String, ◌≡◌, ◌↔◌, ◌⊎◌, refl, true, none, some, List, [], ◌∷◌, ◌++◌, arith, length, All,
}
use phone_law.Prelude.Outcome.{Result, ok, err}
use phone_law.Policy.{administrator, reviewer, operations, has_permission, permissions_for}
use phone_law.Operations.Contracts.{
  RetentionRunResult, generated_media, invented_transcript, manual_upload_receipt, deleted,
  deletion_failed, scheduled,
}
use phone_law.Operations.Configuration.{local_values_are_complete_and_unique}
use phone_law.Operations.Tables.{Database, ConfigurationRow, JobRow, content_destroyed}
use phone_law.Operations.Audit.{audit, ticked, deletion_job}
use phone_law.Operations.Media.{delete_local_media, delete, safe_path, receipts_of}
use phone_law.Operations.ObjectId.{is_object_id}
use phone_law.Operations.Destruction.{destroy_content}
use phone_law.Operations.Evaluation.{
  schedule, scheduled_job, evaluate_row, evaluate_rows, evaluate_resource, evaluate_resources,
  evaluate_retention, current_configuration, every_resource, inventory, record_run,
}
use phone_law.Operations.Execution.{
  tombstone, insert_tombstone, start_deletion, destroy_rows, destroy, attempt_deletion, execute_one,
}
use phone_law.Operations.Runs.{execute_scheduled, run_retention}
use phone_law.Operations.Publishing.{configuration_row, insert_configuration, publish_over, publish}
use phone_law.Operations.Soundness.{IsSoundJob, IsSoundDatabase}
use phone_law.Operations.Sequences.{Reachable, executed, retention_run, Reachable-IsSoundDatabase}
use phone_law.Operations.Coverage.{IsComplete, IsDueJob, evaluate_retention-IsComplete}
use phone_law.Operations.Outcomes.{IsTruthful, execute_one-IsTruthful}
use phone_law.Operations.Orphans.{receipt_first-delete_local_media}
use phone_law.Operations.History.{IsExtended, IsFound, execute_scheduled-IsExtended}
use phone_law.Operations.Finality.{execute_scheduled-IsFound}
use phone_law.Operations.Termination.{execute_times, HasEndedJob, execute_times-HasEnded}
use phone_law.Operations.Versions.{IsPublished, publish-IsPublished, publish-raised}
use phone_law.Operations.Roles.{local_values-IsComplete, local_values-repeated_role}
use phone_law.Operations.Roles as Roles
use phone_law.Operations.Samples.{
  sample_configuration, admin, first_version, sample_receipt, sample_environment,
  failing_environment, sample_database,
}

abbrev evaluated : Result (RetentionRunResult × Database)
evaluated = evaluate_retention sample_environment admin sample_database

abbrev evaluated_result : Result (RetentionRunResult × Database) → RetentionRunResult
evaluated_result (ok (r, db)) = r
evaluated_result (err e) = record {
  maintenance_run_id = "";
  counts = record {
    evaluated = 0;
    scheduled = 0;
    not_due = 0;
    recovered = 0;
    deleted = 0;
    retry_scheduled = 0;
    terminal_failed = 0;
    retained_exceptions = 0;
  };
  completed_at = 0;
}

abbrev evaluated_database : Result (RetentionRunResult × Database) → Database
evaluated_database (ok (r, db)) = db
evaluated_database (err e) = sample_database

evaluate_retention-IsComplete_example :
    (c : ConfigurationRow) × (current_configuration sample_database ≡ ok c)
    × All
        (IsComplete 864000000000 c.configuration_payload.retention sample_database
          (evaluated_database evaluated))
        every_resource
    × (new : List JobRow) × ((evaluated_database evaluated).retention_jobs ≡ new ++ [])
    × All
        (IsDueJob 864000000000 c.configuration_payload.retention (evaluated_database evaluated))
        new
    × (length new ≡ (evaluated_result evaluated).counts.scheduled)
unfolding evaluate_retention evaluate_resources evaluate_resource evaluate_rows evaluate_row
    schedule scheduled_job current_configuration inventory record_run audit
evaluate_retention-IsComplete_example =
    evaluate_retention-IsComplete sample_environment admin sample_database
      (evaluated_result evaluated) (evaluated_database evaluated) refl

abbrev waiting_job : JobRow
waiting_job = record {
  id = "job-1";
  resource_type = invented_transcript;
  resource_id = "transcript-1";
  configuration_version = 1;
  state = scheduled;
  attempt_count = 0;
  diagnostic_code = none;
  scheduled_at = 5;
  next_attempt_at = some 5;
  completed_at = none;
  updated_at = 5;
}

-- A job whose three attempts failed.
abbrev failed_job : JobRow
failed_job = record waiting_job {
  id = "job-2";
  resource_id = "transcript-2";
  state = deletion_failed;
  attempt_count = 3;
  diagnostic_code = some "injected";
  next_attempt_at = none;
  completed_at = some 9;
}

abbrev two_jobs : Database
two_jobs = record sample_database { retention_jobs = waiting_job ∷ failed_job ∷ [] }

waiting-IsSoundJob : IsSoundJob [] waiting_job
waiting-IsSoundJob = record {
  bounded = omega arith;
  pending = λ e. omega arith;
  completed = refl;
  exhausted = λ e. absurd (ground arith);
  buried = λ e. absurd (ground arith);
  kept = λ e. absurd (ground arith);
  excepted = λ e. absurd (ground arith);
}

failed-IsSoundJob : IsSoundJob [] failed_job
failed-IsSoundJob = record {
  bounded = omega arith;
  pending = λ e. absurd (ground arith);
  completed = refl;
  exhausted = λ e. refl;
  buried = λ e. absurd (ground arith);
  kept = λ e. absurd (ground arith);
  excepted = λ e. absurd (ground arith);
}

two_jobs-IsSound : IsSoundDatabase two_jobs
two_jobs-IsSound = record {
  unique = (refl, (refl, tt));
  sound = (waiting-IsSoundJob, (failed-IsSoundJob, tt));
}

-- A job that is due for the media of the sample receipt.
abbrev media_job : JobRow
media_job = record waiting_job { resource_type = generated_media; resource_id = "artifact-1" }

abbrev one_medium : Database
one_medium = record sample_database { retention_jobs = media_job ∷ [] }

execute_one-IsTruthful_example :
    IsTruthful sample_environment admin
      (deletion_job media_job)
      (execute_one sample_environment admin "job-1" one_medium)
execute_one-IsTruthful_example =
    execute_one-IsTruthful sample_environment admin "job-1" one_medium media_job refl refl

media_deleted :
    ((execute_one sample_environment admin "job-1" one_medium).0 ≡ ok deleted)
    × ((execute_one sample_environment admin "job-1" one_medium).1.objects ≡ [])
unfolding execute_one attempt_deletion start_deletion destroy destroy_rows insert_tombstone
    tombstone destroy_content audit delete_local_media delete safe_path is_object_id
media_deleted = (refl, refl)

transcript_deleted : (execute_one sample_environment admin "job-1" two_jobs).0 ≡ ok deleted
unfolding execute_one attempt_deletion start_deletion destroy destroy_rows insert_tombstone
    tombstone destroy_content audit
transcript_deleted = refl

receipt_first-delete_local_media_example :
    (receipts_of "artifact-1"
        (destroy_content manual_upload_receipt "receipt-1" two_jobs).manual_upload_receipts
      ≡ record sample_receipt {
        validation_summary = content_destroyed;
        object_id = none;
        deletion_confirmed = some true;
      }
        ∷ [])
    × ((destroy_content manual_upload_receipt "receipt-1" two_jobs).objects ≡ two_jobs.objects)
    × (delete_local_media sample_environment "artifact-1"
          (destroy_content manual_upload_receipt "receipt-1" two_jobs)
        ≡ ok (destroy_content manual_upload_receipt "receipt-1" two_jobs))
receipt_first-delete_local_media_example =
    receipt_first-delete_local_media sample_environment "artifact-1" two_jobs sample_receipt refl

execute_scheduled-IsExtended_example :
    IsExtended two_jobs.audit_events (execute_scheduled sample_environment admin two_jobs).1
execute_scheduled-IsExtended_example =
    execute_scheduled-IsExtended sample_environment admin two_jobs

execute_scheduled-IsFound_example :
    IsFound "job-2" failed_job (execute_scheduled sample_environment admin two_jobs).1
execute_scheduled-IsFound_example =
    execute_scheduled-IsFound sample_environment admin "job-2" failed_job two_jobs two_jobs-IsSound
      refl refl

execute_times-HasEnded_example :
    HasEndedJob failing_environment admin "job-1"
      (execute_times failing_environment admin "job-1" 3 two_jobs)
execute_times-HasEnded_example =
    execute_times-HasEnded failing_environment admin "job-1" 3 two_jobs waiting_job two_jobs-IsSound
      refl (omega arith)

abbrev decimal : ℕ → String
decimal n = "2"

abbrev published : Result ConfigurationRow × Database
published = publish decimal sample_environment admin sample_configuration sample_database

abbrev or_first : Result ConfigurationRow → ConfigurationRow
or_first (ok row) = row
or_first (err e) = first_version

publish-IsPublished_example :
    IsPublished admin sample_configuration (or_first published.0) sample_database published.1
unfolding publish publish_over insert_configuration configuration_row audit has_permission
    permissions_for
publish-IsPublished_example =
    publish-IsPublished decimal sample_environment admin sample_configuration (or_first published.0)
      sample_database published.1 refl

-- The configuration of the highest version is published again.
abbrev unchanged : Database
unchanged = record sample_database {
  firm_configuration_versions = record first_version { content_hash = "18:00" } ∷ [];
}

publish-raised_example :
    ((publish decimal sample_environment admin sample_configuration unchanged).1 ≡ unchanged)
    ⊎ ((publish decimal sample_environment admin sample_configuration unchanged).1
        ≡ ticked unchanged)
unfolding publish publish_over has_permission permissions_for
publish-raised_example =
    publish-raised decimal sample_environment admin sample_configuration unchanged refl

local_values-IsComplete_example :
    (local_values_are_complete_and_unique sample_configuration ≡ ok tt)
    ↔ Roles.IsComplete sample_configuration
local_values-IsComplete_example = local_values-IsComplete sample_configuration

local_values-repeated_role_example :
    local_values_are_complete_and_unique (record sample_configuration {
      report_roles = reviewer ∷ reviewer ∷ reviewer ∷ administrator ∷ operations ∷ [];
    })
    ≡ ok tt
unfolding local_values_are_complete_and_unique
local_values-repeated_role_example = local_values-repeated_role sample_configuration reviewer refl

Reachable-IsSoundDatabase_example :
    IsSoundDatabase
      (execute_one sample_environment admin "job-1"
        (run_retention sample_environment admin sample_database).1).1
Reachable-IsSoundDatabase_example =
    Reachable-IsSoundDatabase
      (execute_one sample_environment admin "job-1"
        (run_retention sample_environment admin sample_database).1).1
      (executed sample_environment admin "job-1"
        (run_retention sample_environment admin sample_database).1
        (retention_run sample_environment admin sample_database
          (Reachable.empty sample_database refl)))
