-- ===== src/Operations/Termination.antt =====
-- Retrying a deletion ends: three executions that return leave the job final.
use phone_law.Prelude.{
  ℕ, zero, suc, ◌+◌, ◌≤◌, String, ◌≡◌, subst, inl, inr, true, List, ◌==◌, eq_iff, arith, find-All,
  find-passes, Bool-cases,
}
use phone_law.Prelude.Outcome.{Result, ok, err, ◌andthen◌, andthen-cases}
use phone_law.Policy.{DemoPrincipal}
use phone_law.Operations.Contracts.{DeletionState, is_final}
use phone_law.Operations.Tables.{Database, Environment, JobRow, TombstoneRow}
use phone_law.Operations.Execution.{execute_one}
use phone_law.Operations.Soundness.{IsSoundJob, IsSoundDatabase}
use phone_law.Operations.Steps.{execute_one-IsSound}
use phone_law.Operations.History.{IsFound, execute_one-IsFound}
use phone_law.Operations.Progress.{IsSpent, HasProgressed, execute_one-HasProgressed}

module _ (env : Environment) (principal : DemoPrincipal) (job_id : String) where
  -- The job is executed again and again, up to an exception.
  unfoldable pub execute_times : ℕ → Database → Result (Unit {0}) × Database
  execute_times zero db = (ok tt, db)
  execute_times (suc n) db =
      execute_one env principal job_id db andthen (λ state next. execute_times n next)

  -- When no execution raised, the identifier finds a job that is final.
  abbrev pub HasEndedJob : Result (Unit {0}) × Database → Type 0
  HasEndedJob (ok u, db) = (y : JobRow) × IsFound job_id y db × (is_final y.state ≡ true)
  HasEndedJob (err e, db) = Unit

  final-execute_times :
      (n : ℕ) (db : Database) (x : JobRow)
      → is_final x.state ≡ true
      → IsFound job_id x db
      → HasEndedJob (execute_times n db)
  unfolding execute_times
  final-execute_times zero db x final h = (x, h, final)
  final-execute_times (suc n) db x final h =
      andthen-cases HasEndedJob (execute_one env principal job_id db) _
        (λ state next same. final-execute_times n next x final (
          subst (λ r. IsFound job_id x r.1) same
            (execute_one-IsFound env principal job_id x final job_id db h)))
        (λ e next same. tt)

  spent :
      (x : JobRow) (began : ℕ) (s : DeletionState) (r : Result DeletionState × Database)
      (next : Database)
      → HasProgressed env principal x began r
      → r ≡ (ok s, next)
      → IsSpent x s next
  spent x began s r next h same = subst (HasProgressed env principal x began) same h

  pending_last :
      (ts : List TombstoneRow) (x : JobRow)
      → IsSoundJob ts x
      → 3 ≤ x.attempt_count
      → is_final x.state ≡ true
  pending_last ts x h three = elim (Bool-cases (is_final x.state)) [
    | inl e ↦ e
    | inr e ↦ let few = h.pending e in absurd (ground arith)
  ]

  -- In sound tables, a job that has had some attempts and is executed for what is left of three, one
  -- execution after the other, is final in the end, unless one of them raised.
  pub execute_times-HasEnded :
      (n : ℕ) (db : Database) (x : JobRow)
      → IsSoundDatabase db
      → IsFound job_id x db
      → 3 ≤ x.attempt_count + n
      → HasEndedJob (execute_times n db)
  unfolding execute_times
  execute_times-HasEnded zero db x sound found enough =
      let own : IsSoundJob db.retention_tombstones x =
        find-All (IsSoundJob db.retention_tombstones) (λ j. j.id == job_id) db.retention_jobs
          {x = x} sound.sound found in
      (x, found, pending_last db.retention_tombstones x own (omega (arith, enough)))
  execute_times-HasEnded (suc n) db x sound found enough = elim (Bool-cases (is_final x.state)) [
    | inl final ↦ final-execute_times (suc n) db x final found
    | inr open_ ↦
        andthen-cases HasEndedJob (execute_one env principal job_id db) _
          (λ state next same.
            let step =
              spent x (env.now db.ticks) state (execute_one env principal job_id db) next
                (execute_one-HasProgressed env principal job_id db x found open_) same in
            let own : x.id ≡ job_id =
              (eq_iff x.id job_id).0
                (find-passes (λ (j : JobRow). j.id == job_id) db.retention_jobs {x = x} found) in
            execute_times-HasEnded n next step.row
              (subst (λ r. IsSoundDatabase r.1) same
                (execute_one-IsSound env principal job_id db sound))
              (subst (λ k. IsFound k step.row next) own step.found)
              (omega (arith, step.count, enough)))
          (λ e next same. tt)
  ]
