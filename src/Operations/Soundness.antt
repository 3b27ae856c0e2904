-- ===== src/Operations/Soundness.antt =====
-- The invariant of the deletion jobs, and that it holds after a job or a tombstone changes.
use phone_law.Prelude.{
  ◌≤◌, ◌<◌, String, ◌≡◌, Bool, true, false, some, List, ◌∷◌, ◌==◌, arith, any, find, update_where,
  is_some, All, All-map, IsUnique, update_where-IsUnique, All-update_found,
}
use phone_law.Operations.Contracts.{
  DeletionState, is_final, deleted, retained_exception, deletion_failed,
}
use phone_law.Operations.Tables.{Database, JobRow, TombstoneRow}
use phone_law.Operations.Execution.{is_tombstone_for, is_audit}

abbrev pub is_buried : DeletionState → Bool
is_buried deleted = true
is_buried retained_exception = true
is_buried _ = false

-- A job has at most three attempts and fewer while it is not final; it is completed exactly when it
-- is final, and failed for good after three attempts; a resource that is deleted, or retained as an
-- exception, has its tombstone; and only audit metadata is retained, never deleted.
pub record IsSoundJob (tombstones : List TombstoneRow) (j : JobRow) : Type 0 where
  pub bounded : j.attempt_count ≤ 3
  pub pending : is_final j.state ≡ false → j.attempt_count < 3
  pub completed : is_some j.completed_at ≡ is_final j.state
  pub exhausted : j.state ≡ deletion_failed → j.attempt_count ≡ 3
  pub buried :
      is_buried j.state ≡ true
      → any (is_tombstone_for j.resource_type j.resource_id) tombstones ≡ true
  pub kept : j.state ≡ deleted → is_audit j.resource_type ≡ false
  pub excepted : j.state ≡ retained_exception → is_audit j.resource_type ≡ true

pub record IsSoundJobs (jobs : List JobRow) (tombstones : List TombstoneRow) : Type 0 where
  pub unique : IsUnique (λ j. j.id) jobs
  pub sound : All (IsSoundJob tombstones) jobs

abbrev pub IsSoundDatabase : Database → Type 0
IsSoundDatabase db = IsSoundJobs db.retention_jobs db.retention_tombstones

pub more_tombstones :
    (t : TombstoneRow) (tombstones : List TombstoneRow) (j : JobRow)
    → IsSoundJob tombstones j
    → IsSoundJob (t ∷ tombstones) j
more_tombstones t tombstones j h = record {
  bounded = h.bounded;
  pending = h.pending;
  completed = h.completed;
  exhausted = h.exhausted;
  buried = λ e. rw (h.buried e) (ground arith);
  kept = h.kept;
  excepted = h.excepted;
}

pub tombstone-IsSoundJobs :
    (t : TombstoneRow) (jobs : List JobRow) (tombstones : List TombstoneRow)
    → IsSoundJobs jobs tombstones
    → IsSoundJobs jobs (t ∷ tombstones)
tombstone-IsSoundJobs t jobs tombstones h = record {
  unique = h.unique;
  sound =
      All-map (IsSoundJob tombstones) (IsSoundJob (t ∷ tombstones)) (more_tombstones t tombstones)
        jobs h.sound;
}

-- A sound row in place of the one that its identifier finds.
pub set_job-IsSoundJobs :
    (job_id : String) (f : JobRow → JobRow) (jobs : List JobRow) (tombstones : List TombstoneRow)
    {x : JobRow}
    → ((j : JobRow) → (f j).id ≡ j.id)
    → find (λ j. j.id == job_id) jobs ≡ some x
    → IsSoundJob tombstones (f x)
    → IsSoundJobs jobs tombstones
    → IsSoundJobs (update_where (λ j. j.id == job_id) f jobs) tombstones
set_job-IsSoundJobs job_id f jobs tombstones {x} keeps found new h = record {
  unique = update_where-IsUnique (λ (j : JobRow). j.id) f keeps (λ j. j.id == job_id) jobs h.unique;
  sound =
      All-update_found (λ (j : JobRow). j.id) (IsSoundJob tombstones) f job_id jobs {x = x} h.unique
        found new h.sound;
}
