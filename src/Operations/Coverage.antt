-- ===== src/Operations/Coverage.antt =====
-- An evaluation as a whole: the resources that are due get deletion jobs, and only they do.
use phone_law.Prelude.{
  ℕ, ◌+◌, ◌≡◌, refl, sym, subst, true, false, List, [], ◌∷◌, ◌++◌, arith, length, All, All-map,
}
use phone_law.Prelude.Outcome.{ok, >>=-ok}
use phone_law.Policy.{DemoPrincipal}
use phone_law.Operations.Contracts.{
  RetentionResource, LocalRetentionSchedule, days_for, scheduled, RetentionRunResult,
  retention_evaluation, generated_media, invented_transcript, accepted_analysis, daily_report,
  processing_attempt, manual_upload_receipt, reviewer_feedback, playbook_version, audit_metadata,
}
use phone_law.Operations.Tables.{Database, Environment, JobRow, ConfigurationRow, MaintenanceRow}
use phone_law.Operations.Audit.{ticked}
use phone_law.Operations.Evaluation.{
  Tally, evaluate_resource, evaluate_resources, evaluate_retention, current_configuration,
  counts_of, every_resource, nothing, has_job, is_not_due, record_run, inventory,
}
use phone_law.Operations.Growth.{
  Growth, nothing-Growth, Growth-Growth, map-Growth, has_job-Growth, any-inventory-Growth,
  All-inventory-Growth,
}
use phone_law.Operations.Scheduling.{is_due_in, IsDue, evaluate_resource-ok}

module _ (now : ℕ) (retention : LocalRetentionSchedule) where
  -- A new job: not tried yet, and for a row that is there and due.
  abbrev pub IsDueJob : Database → JobRow → Type 0
  IsDueJob db j =
      (j.state ≡ scheduled)
      × (j.attempt_count ≡ 0)
      × (is_due_in now (days_for retention j.resource_type) j.resource_id
            (inventory j.resource_type db)
          ≡ true)

  -- Every due row of a resource has a job.
  abbrev pub IsComplete : Database → Database → RetentionResource → Type 0
  IsComplete db db' resource =
      All
        (λ row.
          is_not_due now (days_for retention resource) row ≡ false
          → has_job resource row.id db' ≡ true)
        (inventory resource db)

  due-IsDueJob :
      (resource : RetentionResource) (db : Database) (j : JobRow)
      → IsDue now resource (days_for retention resource) (inventory resource db) j
      → IsDueJob db j
  due-IsDueJob resource db j h = (
    h.waiting,
    h.untried,
    subst (λ r. is_due_in now (days_for retention r) j.resource_id (inventory r db) ≡ true)
        (sym h.kind) h.due,
  )

  later-IsComplete :
      (P : JobRow → Type 0) (t t' : Tally) (db db₁ db' : Database) (resource : RetentionResource)
      → Growth P t t' db₁ db'
      → IsComplete db db₁ resource
      → IsComplete db db' resource
  later-IsComplete P t t' db db₁ db' resource g h =
      All-map
        (λ row.
          is_not_due now (days_for retention resource) row ≡ false
          → has_job resource row.id db₁ ≡ true)
        (λ row.
          is_not_due now (days_for retention resource) row ≡ false
          → has_job resource row.id db' ≡ true)
        (λ row c e. has_job-Growth P t t' db₁ db' resource row.id g (c e)) (inventory resource db) h

module _ (env : Environment) (principal : DemoPrincipal) (version now : ℕ)
    (retention : LocalRetentionSchedule) where
  evaluate_resources-ok :
      (resources : List RetentionResource) (t : Tally) (db : Database) {t' : Tally} {db' : Database}
      → evaluate_resources env principal version now retention resources t db ≡ ok (t', db')
      → Growth (IsDueJob now retention db') t t' db db'
        × All (IsComplete now retention db db') resources
  unfolding evaluate_resources
  evaluate_resources-ok [] t db {t'} {db'} h =
      let same : (t, db) ≡ (t', db') = cc in
      subst
        (λ (p : Tally × Database).
          Growth (IsDueJob now retention p.1) t p.0 db p.1
          × All (IsComplete now retention db p.1) [])
        same (nothing-Growth (IsDueJob now retention db) t t db refl, tt)
  evaluate_resources-ok (resource ∷ resources) t db {t'} {db'} h =
      let ((t₁, db₁), first, later) =
        >>=-ok
          (evaluate_resource env principal version now resource (days_for retention resource) t db)
          _ h in
      let (g, complete) =
        evaluate_resource-ok env principal version now resource (days_for retention resource) t db
          {t' = t₁} {db' = db₁} first in
      let (g', all_complete) = evaluate_resources-ok resources t₁ db₁ {t' = t'} {db' = db'} later in
      (
        Growth-Growth (IsDueJob now retention db') t t₁ t' db db₁ db'
            (map-Growth (IsDue now resource (days_for retention resource) (inventory resource db))
              (IsDueJob now retention db') t t₁ db db₁
              (λ j due.
                let here = due-IsDueJob now retention resource db j due in
                (
                  here.0,
                  here.1,
                  any-inventory-Growth (IsDueJob now retention db') t₁ t' db₁ db' _ j.resource_type
                      g' (any-inventory-Growth _ t t₁ db db₁ _ j.resource_type g here.2),
                ))
              g)
            g',
        (
          later-IsComplete now retention (IsDueJob now retention db') t₁ t' db db₁ db' resource g'
              complete,
          All-map (IsComplete now retention db₁ db') (IsComplete now retention db db')
              (λ r c. All-inventory-Growth _ t t₁ db db₁ _ r g c) resources all_complete,
        ),
      )

-- A run that is put on record does not change what there is.
inventory-recorded :
    (r : RetentionResource) (db : Database) (runs : List MaintenanceRow) (issued : ℕ)
    → inventory r (record db { maintenance_runs = runs; issued = issued }) ≡ inventory r db
unfolding inventory
inventory-recorded generated_media db runs issued = refl
inventory-recorded invented_transcript db runs issued = refl
inventory-recorded accepted_analysis db runs issued = refl
inventory-recorded daily_report db runs issued = refl
inventory-recorded processing_attempt db runs issued = refl
inventory-recorded manual_upload_receipt db runs issued = refl
inventory-recorded reviewer_feedback db runs issued = refl
inventory-recorded playbook_version db runs issued = refl
inventory-recorded audit_metadata db runs issued = refl

recorded-IsDueJob :
    (now : ℕ) (retention : LocalRetentionSchedule) (db : Database) (runs : List MaintenanceRow)
    (issued : ℕ) (j : JobRow)
    → IsDueJob now retention db j
    → IsDueJob now retention (record db { maintenance_runs = runs; issued = issued }) j
recorded-IsDueJob now retention db runs issued j h = (
  h.0,
  h.1,
  subst (λ rows. is_due_in now (days_for retention j.resource_type) j.resource_id rows ≡ true)
      (sym (inventory-recorded j.resource_type db runs issued)) h.2,
)

counted_nothing : (n m : ℕ) → n + 0 ≡ m → n ≡ m
counted_nothing n m h = omega (arith, h)

-- An evaluation that succeeds uses the current configuration. Every row of every kind of resource
-- that is due by it has a deletion job in the end. The jobs that were there stay as they were; the
-- new ones are as many as the result counts, and each is waiting, has not been tried, and is for a
-- row that is there and due.
pub evaluate_retention-IsComplete :
    (env : Environment) (principal : DemoPrincipal) (db : Database) (result : RetentionRunResult)
    (db' : Database)
    → evaluate_retention env principal db ≡ ok (result, db')
    → (c : ConfigurationRow) × (current_configuration db ≡ ok c)
      × All (IsComplete (env.now db.ticks) c.configuration_payload.retention db db') every_resource
      × (new : List JobRow) × (db'.retention_jobs ≡ new ++ db.retention_jobs)
      × All (IsDueJob (env.now db.ticks) c.configuration_payload.retention db') new
      × (length new ≡ result.counts.scheduled)
unfolding evaluate_retention record_run
evaluate_retention-IsComplete env principal db result db' h =
    let now = env.now db.ticks in
    let (c, current, h₁) = >>=-ok (current_configuration db) _ h in
    let retention = c.configuration_payload.retention in
    let ((t, db₁), done, h₂) =
      >>=-ok
        (evaluate_resources env principal c.version now retention every_resource nothing
          (ticked db))
        _ h₁ in
    let (g, complete) =
      evaluate_resources-ok env principal c.version now retention every_resource nothing (ticked db)
        {t' = t} {db' = db₁} done in
    let recorded = record_run env principal retention_evaluation (counts_of t) now now db₁ in
    let same : recorded ≡ (result, db') = cc in
    subst
      (λ (p : RetentionRunResult × Database).
        (c : ConfigurationRow) × (current_configuration db ≡ ok c)
        × All (IsComplete now c.configuration_payload.retention db p.1) every_resource
        × (new : List JobRow) × (p.1.retention_jobs ≡ new ++ db.retention_jobs)
        × All (IsDueJob now c.configuration_payload.retention p.1) new
        × (length new ≡ p.0.counts.scheduled))
      same
      (
        c,
        current,
        complete,
        g.new,
        g.jobs,
        All-map (IsDueJob now retention db₁) (IsDueJob now retention recorded.1)
            (recorded-IsDueJob now retention db₁ _ _) g.new g.good,
        counted_nothing (length g.new) t.scheduled g.counted,
      )
