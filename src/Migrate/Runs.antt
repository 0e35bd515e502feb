-- ===== src/Migrate/Runs.antt =====
-- crates/sqlx-turso-core/src/migrate.rs: `apply`, `revert` and `skip` of `Migrate`. The readings of the
-- clock are a parameter, and so is what sqlx-core does with the stream of a query.
pub mod Depth
pub mod Laws
pub mod Atomic
pub mod Applied
use sqlx_turso.Base.{Result, ok, err, map_err, ℤ, ℕ, Bool, true, false, none, List, [], ◌∷◌, ◌++◌}
use sqlx_turso.Migrate.Runner.{number, string, bytes, flag, Collector, run_query}
use sqlx_turso.Text.{Text, codes}
use sqlx_turso.Error.{Error}
use sqlx_turso.Engine.{Engine, AnsiSql}
use sqlx_turso.Statement.{StatementCache}
use sqlx_turso.Connection.{TursoConnection}
use sqlx_turso.Transaction.{begin, commit, start_rollback}
use sqlx_turso.Migrate.Identifier.{
  MigrateError, execute, execute_migration, SqliteIdentifierPath, parse_path, display_path,
}

-- `sqlx_core::migrate::Migration`, as far as it is read here.
pub record Migration : Type 0 where
  pub version : ℤ
  pub description : Text
  pub sql : Text
  pub checksum : List ℕ
  pub no_tx : Bool

-- The texts of the queries, around the name of the table.
abbrev pub update_text : SqliteIdentifierPath → Text
update_text table =
    codes "\nUPDATE "
    ++ (display_path table
        ++ codes "\nSET execution_time = ?1\nWHERE version = ?2\n                ")

abbrev skip_text : SqliteIdentifierPath → Text
skip_text table =
    codes "\nINSERT INTO "
    ++ (display_path table
        ++ codes
            " ( version, description, success, checksum, execution_time )\nVALUES ( ?1, ?2, TRUE, ?3, -1 )\n                ")

abbrev pub insert_text : SqliteIdentifierPath → Text
insert_text table =
    codes "\nINSERT OR REPLACE INTO "
    ++ (display_path table
        ++ codes
            " ( version, description, success, checksum, execution_time )\nVALUES ( ?1, ?2, ?3, ?4, -1 )\n        ")

abbrev pub delete_text : SqliteIdentifierPath → Text
delete_text table =
    codes "\nDELETE FROM " ++ (display_path table ++ codes "\nWHERE version = ?1\n        ")

-- Like `Action`, with the errors of migrations.
abbrev pub Step : Type 0 → Type 0
Step S = S → Result (Unit {0}) MigrateError × S

abbrev pub then_step :
    {S : Type 0} → Step S → Result (Unit {0}) MigrateError × S → Result (Unit {0}) MigrateError × S
then_step next (ok _, s) = next s
then_step next (err e, s) = (err e, s)

-- `?` on a call that gives an `Error`
abbrev pub lifted :
    {S : Type 0}
    → (Error → MigrateError)
    → Result (Unit {0}) Error × S
    → Result (Unit {0}) MigrateError × S
lifted f (r, s) = (map_err f r, s)

module _ (E : Engine) (C : StatementCache E.Statement) (Q : AnsiSql) where
  abbrev pub State : Type 0
  State = TursoConnection E C

  module _ (K : Collector E) where
    -- `insert_migration_row`
    abbrev pub insert_migration_row : SqliteIdentifierPath → Migration → Bool → Step State
    insert_migration_row table m success c = lifted execute (
        run_query E C Q K (insert_text table)
          (number m.version ∷ string m.description ∷ flag success ∷ bytes m.checksum ∷ []) c)

    -- `conn.execute(migration.sql)` with its error
    abbrev pub run_sql : Migration → Step State
    run_sql m c = lifted (λ e. execute_migration e m.version) (run_query E C Q K m.sql [] c)

    -- `execute_migration`
    unfoldable pub execute_step : SqliteIdentifierPath → Migration → Step State
    unfolding run_query
    execute_step table m c = then_step (insert_migration_row table m true) (run_sql m c)

    -- `revert_migration`
    unfoldable pub revert_step : SqliteIdentifierPath → Migration → Step State
    unfolding run_query
    revert_step table m c =
        then_step
          (λ d. lifted execute (run_query E C Q K (delete_text table) (number m.version ∷ []) d))
          (run_sql m c)

    -- A transaction that is dropped before it was committed.
    abbrev pub dropped :
        Result (Unit {0}) MigrateError × State → Result (Unit {0}) MigrateError × State
    dropped (r, c) = (r, start_rollback E C Q c)

    -- `transaction.commit().await?`: a failed one drops the transaction.
    abbrev pub committed : Result (Unit {0}) Error × State → Result (Unit {0}) MigrateError × State
    committed (ok _, c) = (ok tt, c)
    committed (err e, c) = dropped (err (execute e), c)

    -- How the body of a transaction ended: an outcome to go on with, or `?` left the method.
    pub data Ended : Type 0 where
      result : Result (Unit {0}) MigrateError × State → Ended
      left_by : MigrateError → State → Ended

    abbrev pub after_commit : Result (Unit {0}) Error × State → Ended
    after_commit (ok _, c) = result (ok tt, c)
    after_commit (err e, c) = left_by (execute e) (start_rollback E C Q c)

    abbrev pub after_body : Result (Unit {0}) MigrateError × State → Ended
    after_body (ok _, c) = after_commit (commit E C Q c)
    after_body (err e, c) = result (err e, start_rollback E C Q c)

    abbrev pub after_begin : Step State → Result (Unit {0}) Error × State → Ended
    after_begin body (ok _, c) = after_body (body c)
    after_begin body (err e, c) = left_by (execute e) c

    -- The body, in a transaction unless the migration wants none.
    abbrev pub run_body : Bool → Step State → State → Ended
    run_body true body c = result (body c)
    run_body false body c = after_begin body (begin E C Q none c)

    -- Behind the body, where `elapsed` are the nanoseconds that it took, as the `i64` that they are cast
    -- to: a failure is recorded.
    abbrev pub finish_apply :
        SqliteIdentifierPath → Migration → ℤ → Ended → Result (Unit {0}) MigrateError × State
    finish_apply table m elapsed (left_by e c) = (err e, c)
    finish_apply table m elapsed (result (err e, c)) =
        then_step (λ d. (err e, d)) (insert_migration_row table m false c)
    finish_apply table m elapsed (result (ok _, c)) =
        lifted execute
          (run_query E C Q K (update_text table) (number elapsed ∷ number m.version ∷ []) c)

    abbrev pub apply_table : Migration → ℤ → Result SqliteIdentifierPath MigrateError → Step State
    apply_table m elapsed (err e) c = (err e, c)
    apply_table m elapsed (ok table) c =
        finish_apply table m elapsed (run_body m.no_tx (execute_step table m) c)

    -- `apply`
    unfoldable pub apply : Text → Migration → ℤ → Step State
    unfolding execute_step parse_path run_query
    apply table_name m elapsed = apply_table m elapsed (parse_path table_name)

    abbrev pub finish_revert : Ended → Result (Unit {0}) MigrateError × State
    finish_revert (left_by e c) = (err e, c)
    finish_revert (result out) = out

    abbrev pub revert_table : Migration → Result SqliteIdentifierPath MigrateError → Step State
    revert_table m (err e) c = (err e, c)
    revert_table m (ok table) c = finish_revert (run_body m.no_tx (revert_step table m) c)

    -- `revert`
    unfoldable pub revert : Text → Migration → Step State
    unfolding revert_step parse_path run_query
    revert table_name m = revert_table m (parse_path table_name)

    abbrev skip_table : Migration → Result SqliteIdentifierPath MigrateError → Step State
    skip_table m (err e) c = (err e, c)
    skip_table m (ok table) c = lifted execute (
        run_query E C Q K (skip_text table)
          (number m.version ∷ string m.description ∷ bytes m.checksum ∷ []) c)

    -- `skip`
    unfoldable pub skip : Text → Migration → Step State
    unfolding parse_path run_query
    skip table_name m = skip_table m (parse_path table_name)
