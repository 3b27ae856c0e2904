-- ===== src/Operations/Evaluation.antt =====
-- `evaluate_retention`: which resources are due, and the jobs that are scheduled for them.
use Prim.Native.String.{slice}
use phone_law.Prelude.{
  ℕ, ◌+◌, String, Bool, ◌&&◌, not, Option, none, some, List, [], ◌∷◌, ◌==◌, any, select, ltb, map,
  if◌then◌else◌,
}
use phone_law.Prelude.Outcome.{Result, ok, err, ◌>>=◌, or_raise, runtime_error, integrity_error}
use phone_law.Policy.{DemoPrincipal}
use phone_law.Operations.Contracts.{
  RetentionResource, resource_value, same_resource, LocalRetentionSchedule, days_for, days,
  RunCounts, RetentionRunResult, MaintenanceKind, DeletionState, generated_media,
  invented_transcript, accepted_analysis, daily_report, processing_attempt, manual_upload_receipt,
  reviewer_feedback, playbook_version, audit_metadata, retention_evaluation,
}
use phone_law.Operations.Tables.{Database, Environment, JobRow, ConfigurationRow}
use phone_law.Operations.Audit.{audit, ticked, resource_key}

-- The row of the highest version.
abbrev later : ConfigurationRow → Option ConfigurationRow → ConfigurationRow
later row none = row
later row (some other) = if ltb row.version other.version then other else row

abbrev pub latest : List ConfigurationRow → Option ConfigurationRow
latest [] = none
latest (row ∷ rows) = some (later row (latest rows))

unfoldable pub current_configuration : Database → Result ConfigurationRow
current_configuration db =
    or_raise (latest db.firm_configuration_versions)
      (runtime_error "local_configuration_unavailable")

-- What is inspected of a row: its identifier and its timestamp.
pub record Dated : Type 0 where
  pub id : String
  pub created_at : ℕ

unfoldable pub inventory : RetentionResource → Database → List Dated
inventory generated_media db =
    map (λ r. record { id = r.id; created_at = r.created_at }) db.media_artifacts
inventory invented_transcript db =
    map (λ r. record { id = r.id; created_at = r.created_at }) db.transcripts
inventory accepted_analysis db =
    map (λ r. record { id = r.id; created_at = r.created_at }) db.analyses
inventory daily_report db =
    map (λ r. record { id = r.id; created_at = r.created_at }) db.daily_reports
inventory processing_attempt db =
    map (λ r. record { id = r.id; created_at = r.created_at }) db.processing_attempts
inventory manual_upload_receipt db =
    map (λ r. record { id = r.id; created_at = r.created_at }) db.manual_upload_receipts
inventory reviewer_feedback db =
    map (λ r. record { id = r.id; created_at = r.created_at }) db.review_events
inventory playbook_version db =
    map (λ r. record { id = r.id; created_at = r.created_at }) db.playbook_versions
inventory audit_metadata db =
    map (λ r. record { id = r.id; created_at = r.created_at }) db.audit_events

-- The unique key of `retention_jobs`.
abbrev pub is_job_for : RetentionResource → String → JobRow → Bool
is_job_for resource resource_id j =
    same_resource j.resource_type resource && j.resource_id == resource_id

abbrev pub has_job : RetentionResource → String → Database → Bool
has_job resource resource_id db = any (is_job_for resource resource_id) db.retention_jobs

unfoldable pub scheduled_job : Environment → RetentionResource → String → (version now : ℕ) → JobRow
scheduled_job env resource resource_id version now = record {
  id = slice (env.sha256 (resource_key resource resource_id)) 0 32;
  resource_type = resource;
  resource_id = resource_id;
  configuration_version = version;
  state = DeletionState.scheduled;
  attempt_count = 0;
  diagnostic_code = none;
  scheduled_at = now;
  next_attempt_at = some now;
  completed_at = none;
  updated_at = now;
}

-- The three counters of the evaluation.
pub record Tally : Type 0 where
  pub evaluated : ℕ
  pub scheduled : ℕ
  pub not_due : ℕ

abbrev pub nothing : Tally
nothing = record { evaluated = 0; scheduled = 0; not_due = 0 }

-- `created_at > now - timedelta(days=…)`, without a difference.
abbrev pub is_not_due : (now days_kept : ℕ) → Dated → Bool
is_not_due now days_kept row = ltb now (row.created_at + days days_kept)

module _ (env : Environment) (principal : DemoPrincipal) (version now : ℕ) where
  -- `INSERT … ON CONFLICT (resource_type, resource_id) DO NOTHING`, and the audit of a new row. The
  -- primary key is not part of the conflict target.
  unfoldable pub schedule :
      RetentionResource → String → Tally → Database → Result (Tally × Database)
  unfolding scheduled_job
  schedule resource resource_id tally db =
      if has_job resource resource_id db
      then ok (tally, db)
      else if any (λ j. j.id == (scheduled_job env resource resource_id version now).id)
          db.retention_jobs
      then err (integrity_error "retention_jobs")
      else ok (
        record tally { scheduled = tally.scheduled + 1 },
        audit env principal "retention_scheduled" (resource_value resource) resource_id "scheduled"
            now
            (record db {
              retention_jobs =
                  scheduled_job env resource resource_id version now ∷ db.retention_jobs;
            }),
      )

  unfoldable pub evaluate_row :
      RetentionResource → (days_kept : ℕ) → Dated → Tally → Database → Result (Tally × Database)
  unfolding schedule
  evaluate_row resource days_kept row tally db =
      let counted = record tally { evaluated = tally.evaluated + 1 } in
      if is_not_due now days_kept row
      then ok (record counted { not_due = counted.not_due + 1 }, db)
      else schedule resource row.id counted db

  unfoldable pub evaluate_rows :
      RetentionResource
      → (days_kept : ℕ) → List Dated
      → Tally
      → Database
      → Result (Tally × Database)
  unfolding evaluate_row
  evaluate_rows resource days_kept [] tally db = ok (tally, db)
  evaluate_rows resource days_kept (row ∷ rows) tally db =
      evaluate_row resource days_kept row tally db
      >>= (λ next. evaluate_rows resource days_kept rows next.0 next.1)

  -- One resource: the rows that have no job when its query is run.
  unfoldable pub evaluate_resource :
      RetentionResource → (days_kept : ℕ) → Tally → Database → Result (Tally × Database)
  unfolding evaluate_rows inventory
  evaluate_resource resource days_kept tally db =
      evaluate_rows resource days_kept
        (select (λ r. not (has_job resource r.id db)) (inventory resource db)) tally db

  unfoldable pub evaluate_resources :
      LocalRetentionSchedule → List RetentionResource → Tally → Database → Result (Tally × Database)
  unfolding evaluate_resource
  evaluate_resources retention [] tally db = ok (tally, db)
  evaluate_resources retention (resource ∷ resources) tally db =
      evaluate_resource resource (days_for retention resource) tally db
      >>= (λ next. evaluate_resources retention resources next.0 next.1)

-- The order of `_inventory_queries`.
abbrev pub every_resource : List RetentionResource
every_resource =
    generated_media ∷ invented_transcript ∷ accepted_analysis ∷ daily_report ∷ processing_attempt
    ∷ manual_upload_receipt ∷ reviewer_feedback ∷ playbook_version ∷ audit_metadata ∷ []

abbrev pub counts_of : Tally → RunCounts
counts_of tally = record {
  evaluated = tally.evaluated;
  scheduled = tally.scheduled;
  not_due = tally.not_due;
  recovered = 0;
  deleted = 0;
  retry_scheduled = 0;
  terminal_failed = 0;
  retained_exceptions = 0;
}

-- The row of `maintenance_runs` that every run leaves.
unfoldable pub record_run :
    Environment
    → DemoPrincipal
    → MaintenanceKind
    → RunCounts
    → (started_at completed_at : ℕ) → Database
    → RetentionRunResult × Database
record_run env principal kind counts started_at completed_at db = (
  record { maintenance_run_id = env.uuid db.issued; counts = counts; completed_at = completed_at },
  record db {
    maintenance_runs =
        record {
          id = env.uuid db.issued;
          kind = kind;
          safe_counts = counts;
          principal_id = principal.principal_id;
          role = principal.role;
          started_at = started_at;
          completed_at = completed_at;
        }
        ∷ db.maintenance_runs;
    issued = db.issued + 1;
  },
)

unfoldable pub evaluate_retention :
    Environment → DemoPrincipal → Database → Result (RetentionRunResult × Database)
unfolding evaluate_resources record_run
evaluate_retention env principal db = do
  configuration ← current_configuration db
  let now = env.now db.ticks
  next ←
      evaluate_resources env principal configuration.version now
        configuration.configuration_payload.retention every_resource nothing (ticked db)
  ok (record_run env principal retention_evaluation (counts_of next.0) now now next.1)
