-- ===== src/Operations/Publishing.antt =====
-- `publish_configuration` and `configuration_history`.
use Prim.Native.String.{slice, ◌++◌}
use phone_law.Prelude.{
  ℕ, ◌+◌, String, ◌||◌, Option, none, some, List, [], ◌∷◌, ◌==◌, eqb, ltb, any, order_by,
  if◌then◌else◌,
}
use phone_law.Prelude.Outcome.{
  Result, ok, err, in_transaction, no_result, conflict, permission_error, integrity_error,
  runtime_error,
}
use phone_law.Policy.{DemoPrincipal, has_permission, publish_configuration}
use phone_law.Operations.Configuration.{LocalFirmConfiguration}
use phone_law.Operations.Tables.{Database, Environment, ConfigurationRow}
use phone_law.Operations.Audit.{audit, ticked}
use phone_law.Operations.Evaluation.{latest}

-- `configuration_history().versions`, the latest first.
unfoldable pub configuration_history : Database → Result (List ConfigurationRow)
configuration_history db =
    elim (order_by (λ a b. ltb b.version a.version) db.firm_configuration_versions) [
      | [] ↦ err (runtime_error "local_configuration_unavailable")
      | row ∷ rows ↦ ok (row ∷ rows)
    ]

-- Primary key, and the unique columns `version` and `content_hash`.
unfoldable pub insert_configuration : ConfigurationRow → Database → Result Database
insert_configuration row db =
    if any
      (λ r. r.id == row.id || (eqb r.version row.version || r.content_hash == row.content_hash))
      db.firm_configuration_versions
    then err (integrity_error "firm_configuration_versions")
    else ok (record db { firm_configuration_versions = row ∷ db.firm_configuration_versions })

module _ (decimal : ℕ → String) (env : Environment) (principal : DemoPrincipal) where
  -- `decimal` is `str` of a number.
  unfoldable pub configuration_row :
      LocalFirmConfiguration → ConfigurationRow → ℕ → ConfigurationRow
  configuration_row configuration before now =
      let content_hash = env.sha256 (env.serialize configuration) in
      record {
        id = slice (env.sha256 (decimal (before.version + 1) ++ (":" ++ content_hash))) 0 32;
        version = before.version + 1;
        configuration_payload = configuration;
        content_hash = content_hash;
        principal_id = principal.principal_id;
        role = principal.role;
        created_at = now;
      }

  abbrev pub inserted :
      ConfigurationRow → ℕ → Database → Result Database → Result ConfigurationRow × Database
  inserted row now db (err e) = (err e, db)
  inserted row now db (ok grown) = (
    ok row,
    audit env principal "configuration_published" "configuration" row.id "published" now grown,
  )

  -- The body of the transaction, on the row of the highest version.
  unfoldable pub publish_over :
      LocalFirmConfiguration
      → ℕ
      → Option ConfigurationRow
      → Database
      → Result ConfigurationRow × Database
  unfolding insert_configuration configuration_row audit
  publish_over configuration now none db = (err no_result, db)
  publish_over configuration now (some before) db =
      if before.content_hash == env.sha256 (env.serialize configuration)
      then (
        err (conflict "configuration_unchanged"),
        audit env principal "configuration_publish_rejected" "configuration" before.id "unchanged"
            now db,
      )
      else inserted (configuration_row configuration before now) now db
          (insert_configuration (configuration_row configuration before now) db)

  unfoldable pub publish : LocalFirmConfiguration → Database → Result ConfigurationRow × Database
  publish configuration db =
      if has_permission principal.role publish_configuration
      then in_transaction (ticked db) (
          publish_over configuration (env.now db.ticks) (latest db.firm_configuration_versions)
            (ticked db))
      else (err (permission_error "configuration_publish_forbidden"), db)
