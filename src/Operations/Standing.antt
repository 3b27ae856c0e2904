-- ===== src/Operations/Standing.antt =====
-- A deletion job before, during and after an attempt.
use phone_law.Prelude.{ℕ, String, ◌≡◌, true, false, some, List, ◌==◌, arith, any, find, find-All}
use phone_law.Operations.Contracts.{RetentionResource, same_resource, is_final}
use phone_law.Operations.Tables.{Database, JobRow, TombstoneRow}
use phone_law.Operations.Audit.{deletion_job}
use phone_law.Operations.Execution.{starting, after_failure, after_destruction, is_tombstone_for}
use phone_law.Operations.Soundness.{IsSoundJob, IsSoundDatabase}

pub starting-IsSoundJob :
    (now : ℕ) (ts : List TombstoneRow) (x : JobRow)
    → is_final x.state ≡ false
    → IsSoundJob ts x
    → IsSoundJob ts (starting now x)
starting-IsSoundJob now ts x open_ h = record {
  bounded = h.bounded;
  pending = λ e. h.pending open_;
  completed = ground (arith, h.completed);
  exhausted = λ e. absurd (ground arith);
  buried = λ e. absurd (ground arith);
  kept = λ e. absurd (ground arith);
  excepted = λ e. absurd (ground arith);
}

pub after_failure-IsSoundJob :
    (diagnostic : String) (now : ℕ) (ts : List TombstoneRow) (x : JobRow)
    → is_final x.state ≡ false
    → IsSoundJob ts x
    → (began : ℕ) → IsSoundJob ts (after_failure (deletion_job x) diagnostic now (starting began x))
after_failure-IsSoundJob diagnostic now ts x open_ h began = record {
  bounded = ground (arith, h.pending open_);
  pending = ground (arith, h.pending open_);
  completed = ground (arith, h.pending open_);
  exhausted = ground (arith, h.pending open_);
  buried = ground arith;
  kept = ground arith;
  excepted = ground arith;
}

pub after_destruction-IsSoundJob :
    (now : ℕ) (ts : List TombstoneRow) (x : JobRow)
    → is_final x.state ≡ false
    → any (is_tombstone_for x.resource_type x.resource_id) ts ≡ true
    → IsSoundJob ts x
    → (began : ℕ) → IsSoundJob ts (after_destruction (deletion_job x) now (starting began x))
after_destruction-IsSoundJob now ts x open_ t h began = record {
  bounded = ground (arith, h.pending open_);
  pending = ground arith;
  completed = ground arith;
  exhausted = ground arith;
  buried = λ e. t;
  kept = ground arith;
  excepted = ground arith;
}

pub same_resource_self : (r : RetentionResource) → same_resource r r ≡ true
same_resource_self r = ground arith

-- A row that its identifier finds, not final, in sound tables.
pub record IsOpen (x : JobRow) (db : Database) : Type 0 where
  pub found : find (λ j. j.id == x.id) db.retention_jobs ≡ some x
  pub open_ : is_final x.state ≡ false
  pub all : IsSoundDatabase db

pub own-IsSoundJob :
    (x : JobRow) (db : Database) → IsOpen x db → IsSoundJob db.retention_tombstones x
own-IsSoundJob x db h =
    find-All (IsSoundJob db.retention_tombstones) (λ j. j.id == x.id) db.retention_jobs {x = x}
      h.all.sound h.found
