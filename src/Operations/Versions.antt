-- ===== src/Operations/Versions.antt =====
-- The versions of the configuration: what publishing adds, and what it refuses.
use phone_law.Prelude.{
  ℕ, ◌+◌, String, ◌≡◌, refl, sym, ap, ◌∙◌, subst, inl, inr, ◌⊎◌, true, false, ◌||◌, some, ◌∷◌, ◌==◌,
  arith, any, eqb, length, Bool-cases, Option-cases,
}
use phone_law.Prelude.Outcome.{Result, ok, err, ok_inj, Result-cases, in_transaction, is_ok}
use phone_law.Policy.{
  DemoPrincipal, DemoRole, administrator, has_permission, permissions_for, publish_configuration,
}
use phone_law.Operations.Configuration.{LocalFirmConfiguration}
use phone_law.Operations.Tables.{Database, Environment, ConfigurationRow}
use phone_law.Operations.Audit.{audit, ticked}
use phone_law.Operations.Evaluation.{latest}
use phone_law.Operations.Publishing.{configuration_row, insert_configuration, publish_over, publish}

only_administrator :
    (role : DemoRole) → has_permission role publish_configuration ≡ true → role ≡ administrator
unfolding has_permission permissions_for
only_administrator role h = ground arith

-- What a published version is.
pub record IsPublished (principal : DemoPrincipal) (c : LocalFirmConfiguration)
    (row : ConfigurationRow) (db db' : Database) : Type 0 where
  pub by : principal.role ≡ administrator
  pub before : ConfigurationRow
  pub replaced : latest db.firm_configuration_versions ≡ some before
  pub version : row.version ≡ before.version + 1
  pub payload : row.configuration_payload ≡ c
  pub stored : db'.firm_configuration_versions ≡ row ∷ db.firm_configuration_versions
  pub current : latest db'.firm_configuration_versions ≡ some row
  pub audited : length db'.audit_events ≡ length db.audit_events + 1

insert_configuration-ok :
    (row : ConfigurationRow) (db : Database) {db' : Database}
    → insert_configuration row db ≡ ok db'
    → db' ≡ record db { firm_configuration_versions = row ∷ db.firm_configuration_versions }
unfolding insert_configuration
insert_configuration-ok row db {db'} h =
    elim (Bool-cases (
      any (λ r. r.id == row.id || (eqb r.version row.version || r.content_hash == row.content_hash))
        db.firm_configuration_versions)) [
          | inl clash ↦ absurd (ground arith)
          | inr free ↦ sym (ok_inj (rw free at h))
        ]

module _ (decimal : ℕ → String) (env : Environment) (principal : DemoPrincipal) where
  committed-ok :
      (r : Result ConfigurationRow × Database) (before : Database) (row : ConfigurationRow)
      (db' : Database)
      → in_transaction before r ≡ (ok row, db')
      → r ≡ (ok row, db')
  committed-ok (ok a, s) before row db' h = h
  committed-ok (err e, s) before row db' h = let h' = ap (λ p. is_ok p.0) h in absurd (ground arith)

  publish_over-ok :
      (c : LocalFirmConfiguration) (now : ℕ) (before row : ConfigurationRow) (db db' : Database)
      → publish_over decimal env principal c now (some before) db ≡ (ok row, db')
      → (configuration_row decimal env principal c before now ≡ row)
        × (audit env principal "configuration_published" "configuration"
              (configuration_row decimal env principal c before now).id
              "published"
              now
              (record db {
                firm_configuration_versions =
                    configuration_row decimal env principal c before now
                    ∷ db.firm_configuration_versions;
              })
            ≡ db')
  unfolding publish_over
  publish_over-ok c now before row db db' h =
      let new = configuration_row decimal env principal c before now in
      elim (Bool-cases (before.content_hash == env.sha256 (env.serialize c))) [
        | inl same ↦ let h' = ap (λ p. is_ok p.0) h in absurd (ground arith)
        | inr changed ↦ elim (Result-cases (insert_configuration new db)) [
          | inr (e, refused) ↦ let h' = ap (λ p. is_ok p.0) h in absurd (ground arith)
          | inl (grown, stored) ↦
              let done : Result ConfigurationRow × Database = (
                ok new,
                audit env principal "configuration_published" "configuration" new.id "published" now
                    grown,
              ) in
              let h' : done ≡ (ok row, db') = rw (changed, stored) at h in
              (
                ok_inj (ap (λ p. p.0) h'),
                ap
                      (λ g.
                        audit env principal "configuration_published" "configuration" new.id
                          "published" now g)
                      (sym (insert_configuration-ok new db {db' = grown} stored))
                    ∙ ap (λ p. p.1) h',
              )
        ]
      ]

  -- A configuration that is published was published by the administrator, one version above the
  -- current one; it is stored as the current version, nothing that was stored before changes, and one
  -- audit row tells of it.
  pub publish-IsPublished :
      (c : LocalFirmConfiguration) (row : ConfigurationRow) (db db' : Database)
      → publish decimal env principal c db ≡ (ok row, db')
      → IsPublished principal c row db db'
  unfolding publish publish_over configuration_row audit
  publish-IsPublished c row db db' h =
      elim (Bool-cases (has_permission principal.role publish_configuration)) [
        | inr refused ↦ let h' = ap (λ p. is_ok p.0) h in absurd (ground arith)
        | inl allowed ↦ elim (Option-cases (latest db.firm_configuration_versions)) [
          | inl e ↦ let h' = ap (λ p. is_ok p.0) h in absurd (ground arith)
          | inr (before, e) ↦
              let now = env.now db.ticks in
              let (row_is, db_is) = publish_over-ok c now before row (ticked db) db' (
                committed-ok (publish_over decimal env principal c now (some before) (ticked db))
                  (ticked db) row db' (rw (allowed, e) at h)) in
              subst (λ r. IsPublished principal c r db db') row_is
                (subst
                  (λ d.
                    IsPublished principal c (configuration_row decimal env principal c before now)
                      db d)
                  db_is
                  (record {
                    by = only_administrator principal.role allowed;
                    before = before;
                    replaced = e;
                    version = refl;
                    payload = refl;
                    stored = refl;
                    current = rw e (ground arith);
                    audited = omega arith;
                  }))
        ]
      ]

  rolled_back :
      (r : Result ConfigurationRow × Database) (before : Database)
      → is_ok (in_transaction before r).0 ≡ false
      → (in_transaction before r).1 ≡ before
  rolled_back (ok a, s) before h = absurd (ground arith)
  rolled_back (err e, s) before h = refl

  -- Publishing that raises leaves no trace but a reading of the clock: nothing is stored, and no
  -- audit row stays, neither of a forbidden configuration nor of an unchanged one.
  pub publish-raised :
      (c : LocalFirmConfiguration) (db : Database)
      → is_ok (publish decimal env principal c db).0 ≡ false
      → ((publish decimal env principal c db).1 ≡ db)
        ⊎ ((publish decimal env principal c db).1 ≡ ticked db)
  unfolding publish
  publish-raised c db h = elim (Bool-cases (has_permission principal.role publish_configuration)) [
    | inr refused ↦ inl (rw refused refl)
    | inl allowed ↦ inr (
        rw allowed (
          rolled_back
            (publish_over decimal env principal c (env.now db.ticks)
              (latest db.firm_configuration_versions) (ticked db))
            (ticked db) (rw allowed at h)))
  ]
