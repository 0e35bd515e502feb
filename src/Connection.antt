-- ===== src/Connection.antt =====
-- crates/sqlx-turso-core/src/connection.rs: the transaction state of a connection and the rollbacks
-- that it owes. `tokio` awaits are plain calls: a connection is used by one task at a time.
pub mod Sync
use sqlx_turso.Base.{
  ltb, ◌==◌, if◌then◌else◌, Result, ok, err, ℕ, ◌+◌, ◌-◌, Bool, true, false, ◌&&◌, Option, List, [],
  ◌∷◌, ◌++◌,
}
use sqlx_turso.Text.{Text, codes, contains}
use sqlx_turso.Error.{EngineError, Error, worker_crashed, from_turso}
use sqlx_turso.Engine.{Engine, AnsiSql}
use sqlx_turso.Statement.{StatementCache, TursoStatement}
use sqlx_turso.Action.{Action}

-- `pending_rollback_depths` is a queue with its front at the head.
pub record TransactionState : Type 0 where
  pub depth : ℕ
  pub pending_rollback_depths : List ℕ
  pub rollback_failed : Bool

-- `TransactionState::default`
abbrev initial : TransactionState
initial = record { depth = 0; pending_rollback_depths = []; rollback_failed = false }

unfoldable pub increment_depth : TransactionState → TransactionState
increment_depth t = record t { depth = t.depth + 1 }

unfoldable pub decrement_depth : TransactionState → TransactionState
decrement_depth t = if ltb 0 t.depth then record t { depth = t.depth - 1 } else t

unfoldable pub mark_rollback_needed : TransactionState → TransactionState
unfolding decrement_depth
mark_rollback_needed t =
    if t.depth == 0
    then t
    else decrement_depth
        (record t { pending_rollback_depths = t.pending_rollback_depths ++ t.depth ∷ [] })

unfoldable pub mark_rollback_failed : TransactionState → TransactionState
mark_rollback_failed t = record t { rollback_failed = true; pending_rollback_depths = [] }

-- The fields that the code changes; the options are those that the connection was opened with.
pub record TursoConnection (E : Engine) (C : StatementCache E.Statement) : Type 0 where
  pub raw : E.State
  pub statements : C.Cache
  pub transaction_state : TransactionState

unfoldable pub rollback_error_is_inactive_transaction : (E : Engine) → EngineError → Bool
rollback_error_is_inactive_transaction E e =
    contains (codes "cannot rollback - no transaction is active") (E.display e)

module _ (E : Engine) (C : StatementCache E.Statement) where
  -- `TursoConnection::new`, from the cache capacity of the options and the driver's connection.
  unfoldable pub new : ℕ → E.State → TursoConnection E C
  new capacity raw = record {
    raw = raw;
    statements = C.with_capacity capacity;
    transaction_state = initial;
  }

  -- What the loop does with the answer to the rollback of one depth, where `rest` is the rest of
  -- the loop.
  unfoldable pub settle :
      ℕ
      → Result (Unit {0}) EngineError
      → TursoConnection E C
      → Result (Unit {0}) Error × TursoConnection E C
      → Result (Unit {0}) Error × TursoConnection E C
  settle depth (ok _) c rest = rest
  settle depth (err e) c rest =
      if depth == 1 && rollback_error_is_inactive_transaction E e then rest else (
        err (from_turso E.display e),
        record c { transaction_state = mark_rollback_failed c.transaction_state },
      )

  module _ (Q : AnsiSql) where
    -- The connection when the rollback of `depth` has been sent, and `rest` is still owed.
    abbrev pub sent : ℕ → List ℕ → TursoConnection E C → TursoConnection E C
    sent depth rest c = record c {
      raw = (E.execute (Q.rollback_sql depth) c.raw).1;
      transaction_state = record (c.transaction_state) { pending_rollback_depths = rest };
    }

    -- The `while let`: each round pops the front of the queue, which is the first argument.
    unfoldable pub clear_loop : List ℕ → Action (TursoConnection E C) (Unit {0})
    clear_loop [] c = (ok tt, c)
    clear_loop (depth ∷ rest) c =
        let answer = (E.execute (Q.rollback_sql depth) c.raw).0 in
        let later = clear_loop rest (sent depth rest c) in
        settle depth answer (sent depth rest c) later

    unfoldable pub clear_pending_rollback : Action (TursoConnection E C) (Unit {0})
    unfolding clear_loop
    clear_pending_rollback c =
        if c.transaction_state.rollback_failed
        then (err worker_crashed, c)
        else clear_loop c.transaction_state.pending_rollback_depths c

  -- `cached_statement`
  unfoldable pub cached_statement :
      Text → TursoConnection E C → Option (TursoStatement E.Statement) × TursoConnection E C
  cached_statement sql c =
      let hit = C.get_mut sql c.statements in (hit.0, record c { statements = hit.1 })

  -- `cache_statement`
  unfoldable pub cache_statement :
      Text → TursoStatement E.Statement → TursoConnection E C → TursoConnection E C
  cache_statement sql s c =
      if C.is_enabled c.statements then record c { statements = C.insert sql s c.statements } else c

  -- `cached_statements_size`
  unfoldable cached_statements_size : TursoConnection E C → ℕ
  cached_statements_size c = C.len c.statements

  -- `clear_cached_statements`
  unfoldable pub clear_cached_statements : Action (TursoConnection E C) (Unit {0})
  clear_cached_statements c = (ok tt, record c { statements = C.clear c.statements })
