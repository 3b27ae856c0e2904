-- ===== src/Operations/Scheduling.antt =====
-- Which deletion jobs an evaluation adds: those of the resources that are due, and only those.
use mathlib.Core.Bool.{true≢false}
use phone_law.Prelude.{
  ℕ, ◌+◌, String, ◌≡◌, refl, sym, ◌∙◌, subst, inl, inr, Bool, true, false, ◌&&◌, not, List, [], ◌∷◌,
  ◌==◌, eq_refl, arith, any, select, All, All-map, All-select, Bool-cases,
}
use phone_law.Prelude.Outcome.{ok, >>=-ok}
use phone_law.Policy.{DemoPrincipal}
use phone_law.Operations.Contracts.{RetentionResource, same_resource, resource_value, scheduled}
use phone_law.Operations.Tables.{Database, Environment, JobRow}
use phone_law.Operations.Audit.{audit}
use phone_law.Operations.Evaluation.{
  Tally, Dated, schedule, scheduled_job, evaluate_row, evaluate_rows, evaluate_resource, has_job,
  is_not_due, inventory,
}
use phone_law.Operations.Growth.{Growth, nothing-Growth, Growth-Growth, has_job-Growth}

-- A row of the inventory with the identifier is due.
abbrev pub is_due_in : (now days_kept : ℕ) → String → List Dated → Bool
is_due_in now days_kept id rows = any (λ r. r.id == id && not (is_not_due now days_kept r)) rows

-- A new job of one resource: not tried yet, and for a row that is due.
pub record IsDue (now : ℕ) (resource : RetentionResource) (days_kept : ℕ) (rows : List Dated)
    (j : JobRow) : Type 0 where
  pub waiting : j.state ≡ scheduled
  pub untried : j.attempt_count ≡ 0
  pub kind : j.resource_type ≡ resource
  pub due : is_due_in now days_kept j.resource_id rows ≡ true

same_resource_self : (r : RetentionResource) → same_resource r r ≡ true
same_resource_self r = ground arith

-- What the inventory has, a test finds.
abbrev Listed : List Dated → Dated → Type 0
Listed rows row = (p : Dated → Bool) → p row ≡ true → any p rows ≡ true

All-Listed_more :
    (x : Dated) (rows listed : List Dated)
    → All (Listed rows) listed
    → All (Listed (x ∷ rows)) listed
All-Listed_more x rows listed h =
    All-map (Listed rows) (Listed (x ∷ rows)) (λ r l p e. rw (l p e) (ground arith)) listed h

All-Listed : (rows : List Dated) → All (Listed rows) rows
All-Listed [] = tt
All-Listed (x ∷ rows) = (λ p e. rw e refl, All-Listed_more x rows rows (All-Listed rows))

module _ (env : Environment) (principal : DemoPrincipal) (version now : ℕ) where
  schedule-ok :
      (resource : RetentionResource) (days_kept : ℕ) (rows : List Dated) (id : String) (t : Tally)
      (db : Database) {t' : Tally} {db' : Database}
      → is_due_in now days_kept id rows ≡ true
      → schedule env principal version now resource id t db ≡ ok (t', db')
      → Growth (IsDue now resource days_kept rows) t t' db db' × (has_job resource id db' ≡ true)
  unfolding schedule scheduled_job audit
  schedule-ok resource days_kept rows id t db {t'} {db'} due h =
      let new : JobRow = scheduled_job env resource id version now in
      elim (Bool-cases (has_job resource id db)) [
        | inl there ↦
            let h' : ok (t, db) ≡ ok (t', db') = rw there at h in
            let same : (t, db) ≡ (t', db') = cc in
            subst
              (λ (p : Tally × Database).
                Growth (IsDue now resource days_kept rows) t p.0 db p.1
                × (has_job resource id p.1 ≡ true))
              same (nothing-Growth (IsDue now resource days_kept rows) t t db refl, there)
        | inr fresh ↦ elim (Bool-cases (any (λ j. j.id == new.id) db.retention_jobs)) [
          | inl clash ↦ absurd (ground arith)
          | inr free ↦
              let grown : Database =
                audit env principal "retention_scheduled" (resource_value resource) id "scheduled"
                  now (record db { retention_jobs = new ∷ db.retention_jobs }) in
              let h' : ok (record t { scheduled = t.scheduled + 1 }, grown) ≡ ok (t', db') =
                rw (fresh, free) at h in
              let same : (record t { scheduled = t.scheduled + 1 }, grown) ≡ (t', db') = cc in
              subst
                (λ (p : Tally × Database).
                  Growth (IsDue now resource days_kept rows) t p.0 db p.1
                  × (has_job resource id p.1 ≡ true))
                same
                (
                  record {
                    new = new ∷ [];
                    jobs = refl;
                    good = (record { waiting = refl; untried = refl; kind = refl; due = due }, tt);
                    counted = omega arith;
                    logged = _ ∷ [];
                    audits = refl;
                    rest = refl;
                  },
                  rw (same_resource_self resource, eq_refl id) refl,
                )
        ]
      ]

  -- The row, if it is due, has its job in the end.
  abbrev pub IsCovered : RetentionResource → ℕ → Database → Dated → Type 0
  IsCovered resource days_kept db row =
      is_not_due now days_kept row ≡ false → has_job resource row.id db ≡ true

  evaluate_row-ok :
      (resource : RetentionResource) (days_kept : ℕ) (rows : List Dated) (row : Dated) (t : Tally)
      (db : Database) {t' : Tally} {db' : Database}
      → Listed rows row
      → evaluate_row env principal version now resource days_kept row t db ≡ ok (t', db')
      → Growth (IsDue now resource days_kept rows) t t' db db'
        × IsCovered resource days_kept db' row
  unfolding evaluate_row
  evaluate_row-ok resource days_kept rows row t db {t'} {db'} listed h =
      let counted : Tally = record t { evaluated = t.evaluated + 1 } in
      elim (Bool-cases (is_not_due now days_kept row)) [
        | inl later ↦
            let skipped : Tally = record counted { not_due = t.not_due + 1 } in
            let h' : ok (skipped, db) ≡ ok (t', db') = rw later at h in
            let same : (skipped, db) ≡ (t', db') = cc in
            subst
              (λ (p : Tally × Database).
                Growth (IsDue now resource days_kept rows) t p.0 db p.1
                × IsCovered resource days_kept p.1 row)
              same
              (
                nothing-Growth (IsDue now resource days_kept rows) t skipped db refl,
                λ e. absurd (true≢false (sym later ∙ e)),
              )
        | inr due ↦
            let (growth, there) =
              schedule-ok resource days_kept rows row.id counted db {t' = t'} {db' = db'}
                (listed (λ r. r.id == row.id && not (is_not_due now days_kept r))
                  (rw (eq_refl row.id, due) refl))
                (rw due at h) in
            (
              record {
                new = growth.new;
                jobs = growth.jobs;
                good = growth.good;
                counted = growth.counted;
                logged = growth.logged;
                audits = growth.audits;
                rest = growth.rest;
              },
              λ e. there,
            )
      ]

  evaluate_rows-ok :
      (resource : RetentionResource) (days_kept : ℕ) (inv : List Dated) (rows : List Dated)
      (t : Tally) (db : Database) {t' : Tally} {db' : Database}
      → All (Listed inv) rows
      → evaluate_rows env principal version now resource days_kept rows t db ≡ ok (t', db')
      → Growth (IsDue now resource days_kept inv) t t' db db'
        × All (IsCovered resource days_kept db') rows
  unfolding evaluate_rows
  evaluate_rows-ok resource days_kept inv [] t db {t'} {db'} listed h =
      let same : (t, db) ≡ (t', db') = cc in
      subst
        (λ (p : Tally × Database).
          Growth (IsDue now resource days_kept inv) t p.0 db p.1
          × All (IsCovered resource days_kept p.1) [])
        same (nothing-Growth (IsDue now resource days_kept inv) t t db refl, tt)
  evaluate_rows-ok resource days_kept inv (row ∷ rows) t db {t'} {db'} listed h =
      let ((t₁, db₁), first, later) =
        >>=-ok (evaluate_row env principal version now resource days_kept row t db) _ h in
      let (g, covered) =
        evaluate_row-ok resource days_kept inv row t db {t' = t₁} {db' = db₁} listed.0 first in
      let (g', all_covered) =
        evaluate_rows-ok resource days_kept inv rows t₁ db₁ {t' = t'} {db' = db'} listed.1 later in
      (
        Growth-Growth (IsDue now resource days_kept inv) t t₁ t' db db₁ db' g g',
        (
          λ e.
              has_job-Growth (IsDue now resource days_kept inv) t₁ t' db₁ db' resource row.id g'
                (covered e),
          all_covered,
        ),
      )

  -- The rows that the query left out have their jobs already.
  IsCovered-select :
      (resource : RetentionResource) (days_kept : ℕ) (db db' : Database) (rows : List Dated)
      → ((id : String) → has_job resource id db ≡ true → has_job resource id db' ≡ true)
      → All (IsCovered resource days_kept db') (select (λ r. not (has_job resource r.id db)) rows)
      → All (IsCovered resource days_kept db') rows
  IsCovered-select resource days_kept db db' [] kept h = tt
  IsCovered-select resource days_kept db db' (r ∷ rows) kept h =
      elim (Bool-cases (has_job resource r.id db)) [
        | inl there ↦ (
          λ e. kept r.id there,
          IsCovered-select resource days_kept db db' rows kept (rw there at h),
        )
        | inr fresh ↦
            let h' : All (IsCovered resource days_kept db')
                (r ∷ select (λ r. not (has_job resource r.id db)) rows) =
              rw fresh at h in
            (h'.0, IsCovered-select resource days_kept db db' rows kept h'.1)
      ]

  pub evaluate_resource-ok :
      (resource : RetentionResource) (days_kept : ℕ) (t : Tally) (db : Database) {t' : Tally}
      {db' : Database}
      → evaluate_resource env principal version now resource days_kept t db ≡ ok (t', db')
      → Growth (IsDue now resource days_kept (inventory resource db)) t t' db db'
        × All (IsCovered resource days_kept db') (inventory resource db)
  unfolding evaluate_resource
  evaluate_resource-ok resource days_kept t db {t'} {db'} h =
      let rows = inventory resource db in
      let (g, covered) =
        evaluate_rows-ok resource days_kept rows (select (λ r. not (has_job resource r.id db)) rows)
          t db {t' = t'} {db' = db'}
          (All-select (Listed rows) (λ r. not (has_job resource r.id db)) rows (All-Listed rows))
          h in
      (
        g,
        IsCovered-select resource days_kept db db' rows
            (λ id. has_job-Growth (IsDue now resource days_kept rows) t t' db db' resource id g)
            covered,
      )
