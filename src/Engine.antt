-- ===== src/Engine.antt =====
-- What the crates call and do not implement: the `turso` engine behind a connection, and from
-- `sqlx_core` the texts of the ANSI transaction statements.
use sqlx_turso.Base.{Result, ℤ, ℕ, Option, List}
use sqlx_turso.Text.{Text}
use sqlx_turso.Error.{EngineError}
use sqlx_turso.Column.{EngineColumn}

-- `turso::Value`, over the engine's `f64`.
pub data EngineValue (F : Type 0) : Type 0 where
  null : EngineValue F
  integer : ℤ → EngineValue F
  real : F → EngineValue F
  text : Text → EngineValue F
  blob : List ℕ → EngineValue F

-- `turso::Connection`, `turso::Statement`, `turso::Rows` and `turso::Row`. `State` is the
-- connection with the database behind it.
pub record Engine : Type 1 where
  pub State : Type 0
  pub Statement : Type 0
  pub Rows : Type 0
  pub Row : Type 0
  pub F64 : Type 0
  pub display : EngineError → Text
  pub execute : Text → State → Result (Unit {0}) EngineError × State
  pub execute_batch : Text → State → Result (Unit {0}) EngineError × State
  pub prepare : Text → State → Result Statement EngineError × State
  pub columns : Statement → List EngineColumn
  pub query : Statement → List (EngineValue F64) → State → Result Rows EngineError × State
  pub next : Rows → State → Result (Option Row) EngineError × Rows × State
  pub get_value : Row → ℕ → Result (EngineValue F64) EngineError
  pub n_change : Statement → State → ℕ

-- `begin_ansi_transaction_sql`, `commit_ansi_transaction_sql` and `rollback_ansi_transaction_sql`,
-- by the depth that they are given.
pub record AnsiSql : Type 0 where
  pub begin_sql : ℕ → Text
  pub commit_sql : ℕ → Text
  pub rollback_sql : ℕ → Text
