-- ===== src/Operations/Audit.antt =====
-- What the methods of the repository share: the audit trail, the clock, generated identifiers and
-- texts that are hashed.
use Prim.Native.String.{String, ◌++◌}
use phone_law.Prelude.{ℕ, ◌+◌, ◌∷◌, Option, some, none, find, update_where, ◌==◌}
use phone_law.Policy.{DemoPrincipal}
use phone_law.Operations.Contracts.{RetentionResource, resource_value, DeletionJob}
use phone_law.Operations.Tables.{Database, Environment, AuditRow, JobRow}

abbrev pub audit_row :
    Environment
    → DemoPrincipal
    → (action target_type target_id result : String) → (created_at : ℕ) → Database
    → AuditRow
audit_row env principal action target_type target_id result created_at db = record {
  id = env.uuid db.issued;
  principal_id = principal.principal_id;
  role = principal.role;
  action = action;
  target_type = target_type;
  target_id = target_id;
  result = result;
  created_at = created_at;
}

-- `_audit`; each row draws an identifier.
unfoldable pub audit :
    Environment
    → DemoPrincipal
    → (action target_type target_id result : String) → (created_at : ℕ) → Database
    → Database
audit env principal action target_type target_id result created_at db = record db {
  audit_events =
      audit_row env principal action target_type target_id result created_at db ∷ db.audit_events;
  issued = db.issued + 1;
}

-- The clock is read once more.
abbrev pub ticked : Database → Database
ticked db = record db { ticks = db.ticks + 1 }

-- `f"{resource.value}:{resource_id}"`
abbrev pub resource_key : RetentionResource → String → String
resource_key resource resource_id = resource_value resource ++ (":" ++ resource_id)

abbrev pub tombstone_key : RetentionResource → String → String
tombstone_key resource resource_id = "tombstone:" ++ resource_key resource resource_id

abbrev pub deletion_job : JobRow → DeletionJob
deletion_job row = record {
  job_id = row.id;
  resource_type = row.resource_type;
  resource_id = row.resource_id;
  configuration_version = row.configuration_version;
  state = row.state;
  attempt_count = row.attempt_count;
  diagnostic_code = row.diagnostic_code;
  scheduled_at = row.scheduled_at;
  next_attempt_at = row.next_attempt_at;
  completed_at = row.completed_at;
}

abbrev snapshot : Option JobRow → Option DeletionJob
snapshot none = none
snapshot (some row) = some (deletion_job row)

-- `_job`
abbrev pub job_of : String → Database → Option DeletionJob
job_of job_id db = snapshot (find (λ j. j.id == job_id) db.retention_jobs)

-- `UPDATE retention_jobs … WHERE id = …`
abbrev pub set_job : String → (JobRow → JobRow) → Database → Database
set_job job_id f db = record db {
  retention_jobs = update_where (λ j. j.id == job_id) f db.retention_jobs;
}
