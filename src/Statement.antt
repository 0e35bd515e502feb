-- ===== src/Statement.antt =====
-- crates/sqlx-turso-core/src/statement.rs, and the statement cache of `sqlx_core` as a parameter.
use sqlx_turso.Base.{Result, ok_or, ℕ, Bool, Option, none, some, List, []}
use sqlx_turso.Text.{Text}
use sqlx_turso.Error.{Error, column_not_found}
use sqlx_turso.Map.{lookup}
use sqlx_turso.Column.{TursoColumn, NameMap, collect_column_names}

-- Over the engine's prepared statements, `S`. No constructor sets `parameters`, so it is left out.
pub record TursoStatement (S : Type 0) : Type 0 where
  pub sql : Text
  pub columns : List TursoColumn
  pub column_names : NameMap
  pub raw : Option S

module _ {S : Type 0} where
  -- `TursoStatement::new`
  unfoldable pub new : Text → TursoStatement S
  new sql = record { sql = sql; columns = []; column_names = collect_column_names []; raw = none }

  -- `TursoStatement::with_raw`
  unfoldable pub with_raw : Text → List TursoColumn → S → TursoStatement S
  with_raw sql columns raw = record {
    sql = sql;
    columns = columns;
    column_names = collect_column_names columns;
    raw = some raw;
  }

  -- `ColumnIndex<TursoStatement> for str`
  unfoldable pub index : Text → TursoStatement S → Result ℕ Error
  index name s = ok_or (column_not_found name) (lookup name s.column_names)

-- `sqlx_core::common::StatementCache`
pub record StatementCache (S : Type 0) : Type 1 where
  pub Cache : Type 0
  pub with_capacity : ℕ → Cache
  pub get_mut : Text → Cache → Option (TursoStatement S) × Cache
  pub insert : Text → TursoStatement S → Cache → Cache
  pub is_enabled : Cache → Bool
  pub len : Cache → ℕ
  pub clear : Cache → Cache
