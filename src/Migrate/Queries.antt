-- ===== src/Migrate/Queries.antt =====
-- crates/sqlx-turso-core/src/migrate.rs: creating a database, and the calls of `Migrate` that ask for
-- the schema and the table of migrations. How sqlx-core runs and decodes a query is a parameter, and so
-- is the opening of a connection.
use sqlx_turso.Base.{
  if◌then◌else◌, Result, ok, err, map_err, and_then, ℤ, ℕ, true, Option, none, some, List, ◌++◌,
  map,
}
use sqlx_turso.Text.{Text, codes}
use sqlx_turso.Error.{Error}
use sqlx_turso.Options.{TursoConnectOptions, create_if_missing, is_memory}
use sqlx_turso.Options.Url.{UrlCodec, from_str}
use sqlx_turso.Migrate.Identifier.{
  MigrateError, execute, create_schemas_not_supported, SqliteIdentifier, parse, display,
  SqliteIdentifierPath, parse_path, display_path,
}

-- `?` on a call that gives an `Error`
abbrev executed : {A S : Type 0} → Result A Error × S → Result A MigrateError × S
executed (r, s) = (map_err execute r, s)

-- `sqlx_core::migrate::AppliedMigration`
pub record AppliedMigration : Type 0 where
  pub version : ℤ
  pub checksum : List ℕ

-- The queries, by the state of the connection: a scalar or the first row if there is one, all rows,
-- and no rows.
pub record QueryRunner : Type 1 where
  pub State : Type 0
  pub fetch_scalar : Text → State → Result (Option ℤ) Error × State
  pub fetch_version : Text → State → Result (Option ℤ) Error × State
  pub fetch_applied : Text → State → Result (List (ℤ × List ℕ)) Error × State
  pub execute_text : Text → State → Result (Unit {0}) Error × State

abbrev schema_version_text : SqliteIdentifier → Text
schema_version_text name = codes "PRAGMA " ++ (display name ++ codes ".schema_version")

abbrev create_table_text : SqliteIdentifierPath → Text
create_table_text table =
    codes "\nCREATE TABLE IF NOT EXISTS "
    ++ (display_path table
        ++ codes
            " (\n    version BIGINT PRIMARY KEY,\n    description TEXT NOT NULL,\n    installed_on TIMESTAMP NOT NULL DEFAULT CURRENT_TIMESTAMP,\n    success BOOLEAN NOT NULL,\n    checksum BLOB NOT NULL,\n    execution_time BIGINT NOT NULL\n);\n                ")

abbrev dirty_text : SqliteIdentifierPath → Text
dirty_text table =
    codes "SELECT version FROM "
    ++ (display_path table ++ codes " WHERE success = false ORDER BY version LIMIT 1")

abbrev applied_text : SqliteIdentifierPath → Text
applied_text table =
    codes "SELECT version, checksum FROM " ++ (display_path table ++ codes " ORDER BY version")

-- The schema does not exist, and cannot be created.
abbrev no_schema : SqliteIdentifier → MigrateError
no_schema name = create_schemas_not_supported (
    codes "cannot create new schema "
    ++ (display name
        ++ codes
            "; creation of additional schemas in Turso requires attaching extra database files"))

module _ (R : QueryRunner) where
  abbrev schema_found :
      SqliteIdentifier → Option ℤ → R.State → Result (Unit {0}) MigrateError × R.State
  schema_found name (some version) s = (ok tt, s)
  schema_found name none s = (err (no_schema name), s)

  unfoldable create_schema_if_not_exists : Text → R.State → Result (Unit {0}) MigrateError × R.State
  unfolding parse
  create_schema_if_not_exists schema_name s =
      and_then
        (λ name t.
          and_then (schema_found name) (executed (R.fetch_scalar (schema_version_text name) t)))
        (parse schema_name, s)

  unfoldable ensure_migrations_table : Text → R.State → Result (Unit {0}) MigrateError × R.State
  unfolding parse_path
  ensure_migrations_table table_name s =
      and_then (λ table t. executed (R.execute_text (create_table_text table) t))
        (parse_path table_name, s)

  unfoldable dirty_version : Text → R.State → Result (Option ℤ) MigrateError × R.State
  unfolding parse_path
  dirty_version table_name s =
      and_then (λ table t. executed (R.fetch_version (dirty_text table) t))
        (parse_path table_name, s)

  abbrev applied_migrations : List (ℤ × List ℕ) → List AppliedMigration
  applied_migrations rows = map (λ row. record { version = row.0; checksum = row.1 }) rows

  unfoldable list_applied_migrations :
      Text → R.State → Result (List AppliedMigration) MigrateError × R.State
  unfolding parse_path
  list_applied_migrations table_name s =
      and_then
        (λ table t.
          and_then (λ rows u. (ok (applied_migrations rows), u))
            (executed (R.fetch_applied (applied_text table) t)))
        (parse_path table_name, s)

-- `create_database`, where `open_and_close` is `connect` and the `close` of what it gives.
module _ {Io Log W : Type 0} (codec : UrlCodec) (log : Log) where
  abbrev create_options :
      (TursoConnectOptions Io Log → W → Result (Unit {0}) Error × W)
      → Result (TursoConnectOptions Io Log) Error
      → W
      → Result (Unit {0}) Error × W
  create_options open_and_close (err e) w = (err e, w)
  create_options open_and_close (ok o) w =
      if is_memory o.target then (ok tt, w) else open_and_close (create_if_missing true o) w

  unfoldable create_database :
      (TursoConnectOptions Io Log → W → Result (Unit {0}) Error × W)
      → Text
      → W
      → Result (Unit {0}) Error × W
  unfolding from_str create_if_missing
  create_database open_and_close url w = create_options open_and_close (from_str codec log 0 url) w
