-- ===== src/Operations/History.antt =====
-- What a run never takes back: the audit trail, and the jobs that are final.
use phone_law.Prelude.{
  ℕ, String, ◌≡◌, refl, sym, ap, ◌∙◌, subst, inl, inr, true, false, some, List, [], ◌∷◌, ◌++◌, ◌==◌,
  eq_iff, arith, find, find_own, find-update_where, find-passes, select, Bool-cases, Option-cases,
  if◌then◌else◌,
}
use phone_law.Prelude.Outcome.{andthen-keeps}
use phone_law.Policy.{DemoPrincipal}
use phone_law.Operations.Contracts.{RunCounts, DeletionJob, resource_value, is_final}
use phone_law.Operations.Tables.{Database, Environment, JobRow, AuditRow}
use phone_law.Operations.Audit.{audit, audit_row, set_job, deletion_job, ticked}
use phone_law.Operations.Frames.{destroyed_content-retention}
use phone_law.Operations.Evaluation.{record_run}
use phone_law.Operations.Execution.{execute_one}
use phone_law.Operations.Closure.{IsClosed, attempt_deletion-keeps}
use phone_law.Operations.Runs.{
  is_deleting, recovered, recover_rows, recover_interrupted, execute_jobs, execute_scheduled,
  count_outcome, recorded_execution, runnable_jobs,
}

-- The audit trail is the old one with new rows in front.
abbrev pub IsExtended : List AuditRow → Database → Type 0
IsExtended before db = (new : List AuditRow) × (db.audit_events ≡ new ++ before)

-- The identifier finds this row.
abbrev pub IsFound : String → JobRow → Database → Type 0
IsFound k x db = find (λ j. j.id == k) db.retention_jobs ≡ some x

module _ (env : Environment) (principal : DemoPrincipal) where
  IsExtended-IsClosed :
      (before : List AuditRow) (job : DeletionJob) → IsClosed env principal job (IsExtended before)
  unfolding audit
  IsExtended-IsClosed before job = record {
    tick = λ db h. h;
    write = λ action kind id result now db h.
        let row = audit_row env principal action kind id result now db in
        (row ∷ h.0, ap (λ xs. row ∷ xs) h.1);
    set = λ f db keeps h. h;
    empty = λ db h. (h.0, (destroyed_content-retention job db).2 ∙ h.1);
    bury = λ ts db h. h;
    remove = λ os db h. h;
  }

  pub elsewhere :
      (k job_id : String) (x : JobRow) (f : JobRow → JobRow) (db : Database)
      → (k == job_id) ≡ false
      → ((j : JobRow) → (f j).id ≡ j.id)
      → IsFound k x db
      → IsFound k x (set_job job_id f db)
  elsewhere k job_id x f db other keeps h =
      let same : x.id ≡ k =
        (eq_iff x.id k).0 (find-passes (λ (j : JobRow). j.id == k) db.retention_jobs {x = x} h) in
      let aside : (x.id == job_id) ≡ false = subst (λ l. (l == job_id) ≡ false) (sym same) other in
      find-update_where (λ (j : JobRow). j.id == k) (λ j. j.id == job_id) f
        (λ j. ap (λ l. l == k) (keeps j)) db.retention_jobs {x = x} h
      ∙ ap (λ b. some (if b then f x else x)) aside

  IsFound-IsClosed :
      (k : String) (x : JobRow) (job : DeletionJob)
      → (k == job.job_id) ≡ false
      → IsClosed env principal job (IsFound k x)
  unfolding audit
  IsFound-IsClosed k x job other = record {
    tick = λ db h. h;
    write = λ action kind id result now db h. h;
    set = λ f db keeps h. elsewhere k job.job_id x f db other keeps h;
    empty = λ db h. ap (λ js. find (λ j. j.id == k) js) (destroyed_content-retention job db).0 ∙ h;
    bury = λ ts db h. h;
    remove = λ os db h. h;
  }

  execute_one-IsExtended :
      (before : List AuditRow) (job_id : String) (db : Database)
      → IsExtended before db
      → IsExtended before (execute_one env principal job_id db).1
  unfolding execute_one
  execute_one-IsExtended before job_id db h =
      elim (Option-cases (find (λ j. j.id == job_id) db.retention_jobs)) [
        | inl e ↦ rw e h
        | inr (x, e) ↦ elim (Bool-cases (is_final x.state)) [
          | inl final ↦ rw (e, final) h
          | inr open_ ↦
              rw (e, open_)
                (attempt_deletion-keeps env principal (deletion_job x) (IsExtended before)
                  (IsExtended-IsClosed before (deletion_job x)) (env.now db.ticks) (ticked db) h)
        ]
      ]

  recover_rows-IsExtended :
      (before : List AuditRow) (now : ℕ) (rows : List JobRow) (db : Database)
      → IsExtended before db
      → IsExtended before (recover_rows env principal now rows db)
  unfolding recover_rows audit
  recover_rows-IsExtended before now [] db h = h
  recover_rows-IsExtended before now (r ∷ rows) db h =
      let row =
        audit_row env principal "retention_restart_recovered" (resource_value r.resource_type)
          r.resource_id "retry_scheduled" now (set_job r.id (recovered now) db) in
      recover_rows-IsExtended before now rows _ (row ∷ h.0, ap (λ xs. row ∷ xs) h.1)

  execute_jobs-IsExtended :
      (before : List AuditRow) (ids : List String) (counts : RunCounts) (db : Database)
      → IsExtended before db
      → IsExtended before (execute_jobs env principal ids counts db).1
  unfolding execute_jobs
  execute_jobs-IsExtended before [] counts db h = h
  execute_jobs-IsExtended before (id ∷ ids) counts db h =
      andthen-keeps (IsExtended before) (execute_one env principal id db) _
        (execute_one-IsExtended before id db h)
        (λ state next. execute_jobs-IsExtended before ids (count_outcome state counts) next)

  -- A run over the scheduled jobs only adds to the audit trail: every row that was there, also of
  -- resources that the run destroys, stays in its place.
  pub execute_scheduled-IsExtended :
      (db : Database) → IsExtended db.audit_events (execute_scheduled env principal db).1
  unfolding execute_scheduled recover_interrupted record_run
  execute_scheduled-IsExtended db =
      let r = recover_interrupted env principal (ticked db) in
      let ids = runnable_jobs env (env.now db.ticks) r.1 in
      andthen-keeps (IsExtended db.audit_events) (execute_jobs env principal ids _ r.1)
        (recorded_execution env principal (env.now db.ticks))
        (execute_jobs-IsExtended db.audit_events ids _ r.1 (
          recover_rows-IsExtended db.audit_events (env.now (ticked db).ticks)
            (select (λ j. is_deleting j.state) db.retention_jobs) (ticked (ticked db)) ([], refl)))
        (λ counts ready h. h)

  pub execute_one-IsFound :
      (k : String) (x : JobRow)
      → is_final x.state ≡ true
      → (job_id : String) (db : Database) → IsFound k x db
      → IsFound k x (execute_one env principal job_id db).1
  unfolding execute_one
  execute_one-IsFound k x final job_id db h =
      elim (Option-cases (find (λ j. j.id == job_id) db.retention_jobs)) [
        | inl e ↦ rw e h
        | inr (y, e) ↦ elim (Bool-cases (is_final y.state)) [
          | inl done ↦ rw (e, done) h
          | inr open_ ↦
              let own = find_own (λ (j : JobRow). j.id) job_id db.retention_jobs {x = y} e in
              elim (Bool-cases (k == y.id)) [
                | inl same ↦
                    let y_found : IsFound k y db =
                      subst (λ l. IsFound l y db) (sym ((eq_iff k y.id).0 same)) own in
                    let clash : some x ≡ some y = sym h ∙ y_found in absurd (ground arith)
                | inr other ↦
                    rw (e, open_)
                      (attempt_deletion-keeps env principal (deletion_job y) (IsFound k x)
                        (IsFound-IsClosed k x (deletion_job y) other) (env.now db.ticks) (ticked db)
                        h)
              ]
        ]
      ]

  pub execute_jobs-IsFound :
      (k : String) (x : JobRow)
      → is_final x.state ≡ true
      → (ids : List String) (counts : RunCounts) (db : Database) → IsFound k x db
      → IsFound k x (execute_jobs env principal ids counts db).1
  unfolding execute_jobs
  execute_jobs-IsFound k x final [] counts db h = h
  execute_jobs-IsFound k x final (id ∷ ids) counts db h =
      andthen-keeps (IsFound k x) (execute_one env principal id db) _
        (execute_one-IsFound k x final id db h)
        (λ state next. execute_jobs-IsFound k x final ids (count_outcome state counts) next)
