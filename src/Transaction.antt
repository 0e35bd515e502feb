-- ===== src/Transaction.antt =====
-- crates/sqlx-turso-core/src/transaction.rs: `TursoTransactionManager`.
pub mod Invariant
pub mod Laws
pub mod Refinement
use sqlx_turso.Base.{
  ltb, ◌==◌, if◌then◌else◌, is_some, ok, err, map_err, ℕ, ◌&&◌, Option, none, some,
}
use sqlx_turso.Text.{Text}
use sqlx_turso.Error.{invalid_save_point_statement, from_turso}
use sqlx_turso.Engine.{Engine, AnsiSql}
use sqlx_turso.Statement.{StatementCache}
use sqlx_turso.Action.{Action, ◌>>◌, modify}
use sqlx_turso.Connection.{
  TransactionState, increment_depth, decrement_depth, mark_rollback_needed, TursoConnection,
  clear_pending_rollback,
}

module _ (E : Engine) (C : StatementCache E.Statement) (Q : AnsiSql) where
  abbrev pub State : Type 0
  State = TursoConnection E C

  abbrev depth : State → ℕ
  depth c = c.transaction_state.depth

  -- `conn.raw().execute(sql, ()).await.map_err(map_turso_error)?`
  unfoldable pub execute_raw : Text → Action State (Unit {0})
  execute_raw sql c =
      let answer = E.execute sql c.raw in
      (map_err (from_turso E.display) answer.0, record c { raw = answer.1 })

  abbrev pub on_state : (TransactionState → TransactionState) → Action State (Unit {0})
  on_state f = modify λ (c : State). record c { transaction_state = f c.transaction_state }

  abbrev pub begin_text : Option Text → ℕ → Text
  begin_text none d = Q.begin_sql d
  begin_text (some sql) d = sql

  -- Behind `clear_pending_rollback`.
  unfoldable pub begin_cleared : Option Text → Action State (Unit {0})
  unfolding execute_raw
  begin_cleared statement c =
      if is_some statement && ltb 0 (depth c)
      then (err invalid_save_point_statement, c)
      else (execute_raw (begin_text statement (depth c)) >> on_state increment_depth) c

  unfoldable pub begin : Option Text → Action State (Unit {0})
  begin statement = do clear_pending_rollback E C Q; begin_cleared statement

  -- The common shape of `commit` and `rollback` behind `clear_pending_rollback`.
  unfoldable pub end_cleared : (ℕ → Text) → Action State (Unit {0})
  unfolding execute_raw
  end_cleared sql c =
      if depth c == 0
      then (ok tt, c)
      else (execute_raw (sql (depth c)) >> on_state decrement_depth) c

  unfoldable pub commit : Action State (Unit {0})
  commit = do clear_pending_rollback E C Q; end_cleared Q.commit_sql

  unfoldable pub rollback : Action State (Unit {0})
  rollback = do clear_pending_rollback E C Q; end_cleared Q.rollback_sql

  unfoldable pub start_rollback : State → State
  start_rollback c = record c { transaction_state = mark_rollback_needed c.transaction_state }

  unfoldable get_transaction_depth : State → ℕ
  get_transaction_depth c = depth c
