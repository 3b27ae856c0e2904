-- ===== src/Operations/Retention.antt =====
-- An evaluation keeps the deletion jobs sound, and so does `run_retention` as a whole.
use phone_law.Prelude.{
  ℕ, ◌+◌, String, ◌≡◌, refl, subst, inl, inr, not, List, [], ◌∷◌, ◌==◌, arith, any, select,
  Bool-cases,
}
use phone_law.Prelude.Outcome.{ok, ok_inj, Result-cases, >>=-ok, andthen-keeps}
use phone_law.Policy.{DemoPrincipal}
use phone_law.Operations.Contracts.{
  RetentionResource, resource_value, LocalRetentionSchedule, days_for, RetentionRunResult,
}
use phone_law.Operations.Tables.{Database, Environment, JobRow, TombstoneRow}
use phone_law.Operations.Audit.{audit, ticked}
use phone_law.Operations.Evaluation.{
  Tally, Dated, schedule, scheduled_job, evaluate_row, evaluate_rows, evaluate_resource,
  evaluate_resources, evaluate_retention, current_configuration, every_resource, nothing, has_job,
  is_not_due, record_run, inventory,
}
use phone_law.Operations.Runs.{execute_scheduled, run_retention}
use phone_law.Operations.Soundness.{IsSoundJob, IsSoundDatabase}
use phone_law.Operations.Rounds.{execute_scheduled-IsSound}

module _ (env : Environment) (principal : DemoPrincipal) (version now : ℕ) where
  scheduled-IsSoundJob :
      (resource : RetentionResource) (id : String) (ts : List TombstoneRow)
      → IsSoundJob ts (scheduled_job env resource id version now)
  unfolding scheduled_job
  scheduled-IsSoundJob resource id ts = record {
    bounded = omega arith;
    pending = λ e. omega arith;
    completed = refl;
    exhausted = λ e. absurd (ground arith);
    buried = λ e. absurd (ground arith);
    kept = λ e. absurd (ground arith);
    excepted = λ e. absurd (ground arith);
  }

  schedule-IsSound :
      (resource : RetentionResource) (id : String) (t : Tally) (db : Database) {t' : Tally}
      {db' : Database}
      → schedule env principal version now resource id t db ≡ ok (t', db')
      → IsSoundDatabase db
      → IsSoundDatabase db'
  unfolding schedule audit
  schedule-IsSound resource id t db {t'} {db'} h s = elim (Bool-cases (has_job resource id db)) [
    | inl there ↦
        let h' : ok (t, db) ≡ ok (t', db') = rw there at h in
        subst (λ (p : Tally × Database). IsSoundDatabase p.1) (ok_inj h') s
    | inr fresh ↦
        let new : JobRow = scheduled_job env resource id version now in
        elim (Bool-cases (any (λ j. j.id == new.id) db.retention_jobs)) [
          | inl clash ↦ absurd (ground arith)
          | inr free ↦
              let grown : Database =
                audit env principal "retention_scheduled" (resource_value resource) id "scheduled"
                  now (record db { retention_jobs = new ∷ db.retention_jobs }) in
              let h' : ok (record t { scheduled = t.scheduled + 1 }, grown) ≡ ok (t', db') =
                rw (fresh, free) at h in
              subst (λ (p : Tally × Database). IsSoundDatabase p.1) (ok_inj h')
                (record {
                  unique = (free, s.unique);
                  sound = (scheduled-IsSoundJob resource id db.retention_tombstones, s.sound);
                })
        ]
  ]

  evaluate_row-IsSound :
      (resource : RetentionResource) (days_kept : ℕ) (row : Dated) (t : Tally) (db : Database)
      {t' : Tally} {db' : Database}
      → evaluate_row env principal version now resource days_kept row t db ≡ ok (t', db')
      → IsSoundDatabase db
      → IsSoundDatabase db'
  unfolding evaluate_row
  evaluate_row-IsSound resource days_kept row t db {t'} {db'} h s =
      let counted : Tally = record t { evaluated = t.evaluated + 1 } in
      elim (Bool-cases (is_not_due now days_kept row)) [
        | inl later ↦
            let h' : ok (record counted { not_due = t.not_due + 1 }, db) ≡ ok (t', db') =
              rw later at h in
            subst (λ (p : Tally × Database). IsSoundDatabase p.1) (ok_inj h') s
        | inr due ↦
            schedule-IsSound resource row.id counted db {t' = t'} {db' = db'} (rw due at h) s
      ]

  evaluate_rows-IsSound :
      (resource : RetentionResource) (days_kept : ℕ) (rows : List Dated) (t : Tally) (db : Database)
      {t' : Tally} {db' : Database}
      → evaluate_rows env principal version now resource days_kept rows t db ≡ ok (t', db')
      → IsSoundDatabase db
      → IsSoundDatabase db'
  unfolding evaluate_rows
  evaluate_rows-IsSound resource days_kept [] t db {t'} {db'} h s =
      let same : db ≡ db' = cc in subst IsSoundDatabase same s
  evaluate_rows-IsSound resource days_kept (row ∷ rows) t db {t'} {db'} h s =
      let ((t₁, db₁), first, later) =
        >>=-ok (evaluate_row env principal version now resource days_kept row t db) _ h in
      evaluate_rows-IsSound resource days_kept rows t₁ db₁ {t' = t'} {db' = db'} later
        (evaluate_row-IsSound resource days_kept row t db {t' = t₁} {db' = db₁} first s)

  evaluate_resources-IsSound :
      (retention : LocalRetentionSchedule) (resources : List RetentionResource) (t : Tally)
      (db : Database) {t' : Tally} {db' : Database}
      → evaluate_resources env principal version now retention resources t db ≡ ok (t', db')
      → IsSoundDatabase db
      → IsSoundDatabase db'
  unfolding evaluate_resources evaluate_resource
  evaluate_resources-IsSound retention [] t db {t'} {db'} h s =
      let same : db ≡ db' = cc in subst IsSoundDatabase same s
  evaluate_resources-IsSound retention (r ∷ resources) t db {t'} {db'} h s =
      let ((t₁, db₁), first, later) =
        >>=-ok (evaluate_resource env principal version now r (days_for retention r) t db) _ h in
      evaluate_resources-IsSound retention resources t₁ db₁ {t' = t'} {db' = db'} later (
        evaluate_rows-IsSound r (days_for retention r)
          (select (λ x. not (has_job r x.id db)) (inventory r db)) t db {t' = t₁} {db' = db₁} first
          s)

module _ (env : Environment) (principal : DemoPrincipal) where
  pub evaluate_retention-IsSound :
      (db : Database) {result : RetentionRunResult} {db' : Database}
      → evaluate_retention env principal db ≡ ok (result, db')
      → IsSoundDatabase db
      → IsSoundDatabase db'
  unfolding evaluate_retention record_run
  evaluate_retention-IsSound db {result} {db'} h s =
      let (c, current, h₁) = >>=-ok (current_configuration db) _ h in
      let ((t, db₁), done, h₂) =
        >>=-ok
          (evaluate_resources env principal c.version (env.now db.ticks)
            c.configuration_payload.retention every_resource nothing (ticked db))
          _ h₁ in
      let sound : IsSoundDatabase db₁ =
        evaluate_resources-IsSound env principal c.version (env.now db.ticks)
          c.configuration_payload.retention every_resource nothing (ticked db) {t' = t} {db' = db₁}
          done s in
      subst (λ (p : RetentionRunResult × Database). IsSoundDatabase p.1) (ok_inj h₂) sound

  -- A whole run of retention, which evaluates what is due, recovers interrupted jobs and executes
  -- the jobs that are ready, keeps the tables sound, also when it ends with an exception.
  pub run_retention-IsSound :
      (db : Database) → IsSoundDatabase db → IsSoundDatabase (run_retention env principal db).1
  unfolding run_retention
  run_retention-IsSound db s = elim (Result-cases (evaluate_retention env principal db)) [
    | inr (x, e) ↦ rw e s
    | inl ((result, ready), e) ↦ rw e (
        andthen-keeps IsSoundDatabase (execute_scheduled env principal ready) _
          (execute_scheduled-IsSound env principal ready
            (evaluate_retention-IsSound db {result = result} {db' = ready} e s))
          (λ execution executed ok_. ok_))
  ]
