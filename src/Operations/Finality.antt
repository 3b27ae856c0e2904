-- ===== src/Operations/Finality.antt =====
-- A job that is final stays as it is through any run.
use phone_law.Prelude.{
  ℕ, String, ◌≡◌, refl, sym, ◌∙◌, subst, inl, inr, true, some, List, [], ◌∷◌, ◌==◌, eq_iff, arith,
  find-All_unique, select, update_where, All, All-map, Bool-cases,
}
use phone_law.Prelude.Outcome.{andthen-keeps}
use phone_law.Policy.{DemoPrincipal}
use phone_law.Operations.Contracts.{is_final, resource_value}
use phone_law.Operations.Tables.{Database, Environment, JobRow}
use phone_law.Operations.Audit.{audit, set_job, ticked}
use phone_law.Operations.Evaluation.{record_run}
use phone_law.Operations.Runs.{
  is_deleting, recovered, recover_rows, recover_interrupted, execute_jobs, execute_scheduled,
  recorded_execution, runnable_jobs,
}
use phone_law.Operations.Soundness.{IsSoundDatabase}
use phone_law.Operations.Rounds.{IsInterrupted, recovered-IsInterrupted, IsInterrupted-All}
use phone_law.Operations.History.{IsFound, elsewhere, execute_jobs-IsFound}

module _ (env : Environment) (principal : DemoPrincipal) where
  recover_rows-IsFound :
      (k : String) (x : JobRow)
      → is_final x.state ≡ true
      → (now : ℕ) (rows : List JobRow) (db : Database) → All (IsInterrupted db.retention_jobs) rows
      → IsFound k x db
      → IsFound k x (recover_rows env principal now rows db)
  unfolding recover_rows audit
  recover_rows-IsFound k x final now [] db i h = h
  recover_rows-IsFound k x final now (r ∷ rows) db i h = elim (Bool-cases (k == r.id)) [
    | inl same ↦
        let job_found : IsFound k i.0.job db =
          subst (λ l. IsFound l i.0.job db) (sym ((eq_iff k r.id).0 same)) i.0.found in
        let clash : some x ≡ some i.0.job = sym h ∙ job_found in
        let open_ = i.0.open_ in absurd (ground arith)
    | inr other ↦
        recover_rows-IsFound k x final now rows
          (audit env principal "retention_restart_recovered" (resource_value r.resource_type)
            r.resource_id "retry_scheduled" now (set_job r.id (recovered now) db))
          (All-map (IsInterrupted db.retention_jobs)
            (IsInterrupted (update_where (λ j. j.id == r.id) (recovered now) db.retention_jobs))
            (recovered-IsInterrupted now r.id db.retention_jobs) rows i.1)
          (elsewhere env principal k r.id x (recovered now) db other (λ j. refl) h)
  ]

  -- In sound tables a job that is deleted, retained or failed for good is not touched by a run over
  -- the scheduled jobs: the row that its identifier finds is the same afterwards, also when the run
  -- ends with an exception.
  pub execute_scheduled-IsFound :
      (k : String) (x : JobRow) (db : Database)
      → IsSoundDatabase db
      → is_final x.state ≡ true
      → IsFound k x db
      → IsFound k x (execute_scheduled env principal db).1
  unfolding execute_scheduled recover_interrupted record_run
  execute_scheduled-IsFound k x db sound final h =
      let r = recover_interrupted env principal (ticked db) in
      let ids = runnable_jobs env (env.now db.ticks) r.1 in
      andthen-keeps (IsFound k x) (execute_jobs env principal ids _ r.1)
        (recorded_execution env principal (env.now db.ticks))
        (execute_jobs-IsFound env principal k x final ids _ r.1 (
          recover_rows-IsFound k x final (env.now (ticked db).ticks)
            (select (λ j. is_deleting j.state) db.retention_jobs) (ticked (ticked db))
            (IsInterrupted-All db.retention_jobs db.retention_jobs
              (find-All_unique (λ (j : JobRow). j.id) db.retention_jobs sound.unique))
            h))
        (λ counts ready found. found)
