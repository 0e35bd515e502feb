-- ===== src/Row.antt =====
-- crates/sqlx-turso-core/src/row.rs and query_result.rs: what a query gives.
use sqlx_turso.Base.{length, get_elem?, Result, ◌>>=◌, ok_or, ℕ, ◌+◌, ◌%◌, ◌^◌, List, [], ◌∷◌}
use sqlx_turso.Text.{Text}
use sqlx_turso.Error.{Error, column_not_found, column_index_out_of_bounds}
use sqlx_turso.Map.{lookup}
use sqlx_turso.Column.{TursoColumn, NameMap, collect_column_names}
use sqlx_turso.Value.{TursoValue}

-- `TursoRow`, over `f64`
pub record TursoRow (F : Type 0) : Type 0 where
  pub columns : List TursoColumn
  pub column_names : NameMap
  pub values : List (TursoValue F)

module _ {F : Type 0} where
  -- `TursoRow::new`
  unfoldable pub new : List TursoColumn → List (TursoValue F) → TursoRow F
  new columns values = record {
    columns = columns;
    column_names = collect_column_names columns;
    values = values;
  }

  -- `TursoRow::with_shared_columns`
  abbrev pub with_shared_columns : List TursoColumn → NameMap → List (TursoValue F) → TursoRow F
  with_shared_columns columns column_names values = record {
    columns = columns;
    column_names = column_names;
    values = values;
  }

  -- `ColumnIndex<TursoRow> for str`
  unfoldable pub index : Text → TursoRow F → Result ℕ Error
  index name row = ok_or (column_not_found name) (lookup name row.column_names)

  -- `try_get_raw`, by what finds the index in the row.
  unfoldable try_get_raw : (TursoRow F → Result ℕ Error) → TursoRow F → Result (TursoValue F) Error
  try_get_raw index_of row = do
    i ← index_of row
    ok_or (column_index_out_of_bounds (length row.values) i) (get_elem? row.values i)

-- `TursoQueryResult`, of a `u64`
pub record TursoQueryResult : Type 0 where
  pub rows_affected : ℕ

abbrev pub no_rows_affected : TursoQueryResult
no_rows_affected = record { rows_affected = 0 }

abbrev sum_rows : List TursoQueryResult → ℕ
sum_rows [] = 0
sum_rows (r ∷ rs) = (r.rows_affected + sum_rows rs) % 2 ^ 64

-- `extend`: `sum` and `+=` on `u64`, which wrap in a release build.
unfoldable extend : List TursoQueryResult → TursoQueryResult → TursoQueryResult
extend rs r = record { rows_affected = (r.rows_affected + sum_rows rs) % 2 ^ 64 }
