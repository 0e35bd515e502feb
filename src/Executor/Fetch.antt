-- ===== src/Executor/Fetch.antt =====
-- crates/sqlx-turso-core/src/executor.rs: queries and the stream of their rows.
pub mod Drain
pub mod Refusal
pub mod Optional
pub mod Behind
pub mod Cached
pub mod Owned
pub mod Calls
use sqlx_turso.Base.{
  if◌then◌else◌, is_some, Result, ok, err, map_err, ℕ, ◌+◌, Bool, Option, none, some, List, [], ◌∷◌,
  ◌++◌,
}
use sqlx_turso.Text.{Text, codes}
use sqlx_turso.Error.{EngineError, Error, from_turso, unsupported_sqlx}
use sqlx_turso.Engine.{Engine, EngineValue, AnsiSql}
use sqlx_turso.Column.{TursoColumn, NameMap, turso_columns, collect_column_names}
use sqlx_turso.Statement.{StatementCache, TursoStatement, with_raw}
use sqlx_turso.Value.{TursoValue, with_type_info}
use sqlx_turso.Row.{TursoRow, with_shared_columns, TursoQueryResult, no_rows_affected}
use sqlx_turso.Arguments.{TursoArguments, into_turso_values}
use sqlx_turso.Connection.{
  TursoConnection, clear_pending_rollback, cached_statement, cache_statement,
}
use sqlx_turso.Action.{Action, ◌>>=◌, ◌>>◌, pure, fail, modify}
use sqlx_turso.Executor.Inspect.{SqlInspection, inspect_sql}

-- `Either<TursoQueryResult, TursoRow>`
pub data Item (F : Type 0) : Type 0 where
  left : TursoQueryResult → Item F
  right : TursoRow F → Item F

-- The fields of `FetchState::Rows`.
pub record RowsState (E : Engine) : Type 0 where
  pub rows : E.Rows
  pub statement : E.Statement
  pub columns : List TursoColumn
  pub column_names : NameMap
  pub pending_row : Option E.Row

pub data FetchState (E : Engine) : Type 0 where
  rows_state : RowsState E → FetchState E
  query_result : TursoQueryResult → FetchState E
  done : FetchState E

-- The stream of a query: the items of a batch, or what `try_unfold` starts from.
pub data ItemStream (E : Engine) : Type 0 where
  iter : List (Item E.F64) → ItemStream E
  try_unfold : FetchState E → ItemStream E

module _ (E : Engine) where
  -- A call of the engine, its error by `map_turso_error`.
  abbrev pub engine_result {ℓ} : {A : Type ℓ} → Result A EngineError → Result A Error
  engine_result = map_err (from_turso E.display)

  -- The loop over the columns, from the index `n` on.
  unfoldable pub row_values : E.Row → ℕ → List TursoColumn → Result (List (TursoValue E.F64)) Error
  row_values row n [] = ok []
  row_values row n (column ∷ columns) =
      let later = row_values row (n + 1) columns in
      elim (engine_result (E.get_value row n)) [
        | err e ↦ err e
        | ok value ↦ elim later [
          | err e ↦ err e
          | ok values ↦
              ok (with_type_info column.type_info (sqlx_turso.Value.from_turso value) ∷ values)
        ]
      ]

  abbrev pub changes : E.Statement → E.State → TursoQueryResult
  changes statement s = record { rows_affected = E.n_change statement s }

  -- What the polls of the stream give: an item with the state that follows, nothing, or an error.
  abbrev pub Polled : Type 0
  Polled = Result (Option (Item E.F64 × FetchState E)) Error × E.State

  -- With the values of a row: what the answer to the call for the next row makes of it.
  abbrev pub emit_values :
      RowsState E
      → List (TursoValue E.F64)
      → Result (Option E.Row) EngineError × E.Rows × E.State
      → Polled
  emit_values r values (err e, rows, s) = (err (from_turso E.display e), s)
  emit_values r values (ok none, rows, s) = (
    ok (
        some (
          right (with_shared_columns r.columns r.column_names values),
          query_result (changes r.statement s),
        )),
    s,
  )
  emit_values r values (ok (some row), rows, s) = (
    ok (
        some (
          right (with_shared_columns r.columns r.column_names values),
          rows_state (record r { rows = rows; pending_row = some row }),
        )),
    s,
  )

  abbrev pub emit_read : RowsState E → E.State → Result (List (TursoValue E.F64)) Error → Polled
  emit_read r s (err e) = (err e, s)
  emit_read r s (ok values) = emit_values r values (E.next r.rows s)

  -- `FetchState::next` behind the row that it has.
  abbrev pub emit : RowsState E → E.Row → E.State → Polled
  emit r row s = emit_read r s (row_values row 0 r.columns)

  -- Without a pending row: what the answer of the cursor makes of it.
  abbrev pub begin_row : RowsState E → Result (Option E.Row) EngineError × E.Rows × E.State → Polled
  begin_row r (err e, rows, s) = (err (from_turso E.display e), s)
  begin_row r (ok none, rows, s) = (ok (some (left (changes r.statement s), done)), s)
  begin_row r (ok (some row), rows, s) = emit (record r { rows = rows }) row s

  -- `FetchState::next`
  unfoldable pub next : FetchState E → E.State → Polled
  unfolding row_values
  next (query_result result) s = (ok (some (left result, done)), s)
  next done s = (ok none, s)
  next (rows_state r) s = elim (r.pending_row) [
    | some row ↦ emit r row s
    | none ↦ begin_row r (E.next r.rows s)
  ]

-- The surface that a named placeholder is refused as.
abbrev pub placeholder_surface : Text → Text
placeholder_surface placeholder =
    codes "Turso SQLx non-integer named placeholder `" ++ (placeholder ++ codes "`")

module _ (E : Engine) (C : StatementCache E.Statement) where
  abbrev pub State : Type 0
  State = TursoConnection E C

  abbrev pub on_engine {ℓ} :
      {A : Type ℓ} → (E.State → Result A EngineError × E.State) → State → Result A Error × State
  on_engine call c =
      let answer = call c.raw in (engine_result E answer.0, record c { raw = answer.1 })

  -- `prepare_sql`
  unfoldable pub prepare_sql : Text → Action State (TursoStatement E.Statement)
  unfolding cached_statement cache_statement with_raw
  prepare_sql sql c =
      let hit = cached_statement E C sql c in
      elim (hit.0) [
        | some statement ↦ (ok statement, hit.1)
        | none ↦
            (do
              raw ← on_engine (E.prepare sql)
              let statement = with_raw sql (turso_columns (E.columns raw)) raw
              modify (cache_statement E C sql statement)
              pure statement)
              hit.1
      ]

  -- `self.raw().prepare(sql)`
  abbrev pub prepare_raw : Text → Action State E.Statement
  prepare_raw sql = on_engine (E.prepare sql)

  -- `prepare_query_statement`
  unfoldable pub prepare_query_statement : Text → Bool → Action State E.Statement
  unfolding prepare_sql
  prepare_query_statement sql persistent =
      if persistent
      then (do
        statement ← prepare_sql sql
        elim (statement.raw) [ some raw ↦ pure raw | none ↦ prepare_raw sql ])
      else prepare_raw sql

  -- `execute_batch_sql`
  unfoldable pub execute_batch_sql : Text → Action State (List (Item E.F64))
  execute_batch_sql sql = do
    answer ← on_engine (E.execute_batch sql)
    pure (left no_rows_affected ∷ [])

  -- The values that the statement is queried with: none without arguments.
  abbrev pub bound_values : Option (TursoArguments E.F64) → List (EngineValue E.F64)
  bound_values none = []
  bound_values (some arguments) = into_turso_values arguments

  -- The statement of one query, and the stream of its rows.
  unfoldable pub query_rows :
      Text → Bool → Option (TursoArguments E.F64) → Action State (ItemStream E)
  unfolding prepare_query_statement
  query_rows sql persistent arguments = do
    statement ← prepare_query_statement sql persistent
    let columns = turso_columns (E.columns statement)
    rows ← on_engine (E.query statement (bound_values arguments))
    pure (
        try_unfold (
          rows_state (record {
            rows = rows;
            statement = statement;
            columns = columns;
            column_names = collect_column_names columns;
            pending_row = none;
          })))

  -- `fetch_many_sql` behind `clear_pending_rollback`, by what the inspection says.
  unfoldable pub fetch_inspected :
      SqlInspection → Text → Bool → Option (TursoArguments E.F64) → Action State (ItemStream E)
  unfolding query_rows execute_batch_sql
  fetch_inspected inspection sql persistent arguments =
      if inspection.may_contain_multiple_statements
      then if is_some arguments
        then fail (unsupported_sqlx (codes "Turso SQLx batch query arguments"))
        else (do items ← execute_batch_sql sql; pure (iter items))
      else elim (inspection.unsupported_named_placeholder) [
        | none ↦ query_rows sql persistent arguments
        | some placeholder ↦
            if is_some arguments
            then fail (unsupported_sqlx (placeholder_surface placeholder))
            else query_rows sql persistent arguments
      ]

  module _ (Q : AnsiSql) where
    -- `fetch_many_sql`
    unfoldable pub fetch_many_sql :
        Text → Bool → Option (TursoArguments E.F64) → Action State (ItemStream E)
    unfolding clear_pending_rollback fetch_inspected
    fetch_many_sql sql persistent arguments = do
      clear_pending_rollback E C Q
      fetch_inspected (inspect_sql sql) sql persistent arguments
