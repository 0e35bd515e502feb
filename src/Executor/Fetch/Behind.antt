-- ===== src/Executor/Fetch/Behind.antt =====
-- Queries behind calls of the transaction manager.
use sqlx_turso.Base.{
  All, Result, ok, err, and_then, ℕ, ◌≡◌, refl, sym, ap, ◌∙◌, ◌⊎◌, inl, inr, Bool, true, Option,
  List, [],
}
use sqlx_turso.Text.{Text}
use sqlx_turso.Error.{Error, worker_crashed}
use sqlx_turso.Engine.{Engine, AnsiSql}
use sqlx_turso.Statement.{StatementCache}
use sqlx_turso.Arguments.{TursoArguments}
use sqlx_turso.Connection.{TursoConnection, new, clear_pending_rollback}
use sqlx_turso.Transaction.Invariant.{Cleared, clear-Cleared}
use sqlx_turso.Transaction.Laws.{Transactional}
use sqlx_turso.Transaction.Refinement.{Nested, Refines}
use sqlx_turso.Transaction.Refinement.Loop.{ClearDone, clear-ClearDone}
use sqlx_turso.Transaction.Refinement.History.{Op, IsLawful}
use sqlx_turso.Transaction.Refinement.Failing.{FailsCleanly, Rests}
use sqlx_turso.Transaction.Refinement.Persist.{persist, taken, persist-new-Rests}
use sqlx_turso.Executor.Inspect.{inspect_sql}
use sqlx_turso.Executor.Fetch.{fetch_inspected, fetch_many_sql}

module _ (E : Engine) (C : StatementCache E.Statement) (Q : AnsiSql) (Db : Type 0)
    (T : Transactional E Q Db) where
  -- A query either fails since a rollback has failed, or goes to an engine that holds the database of
  -- `n`, with nothing owed.
  abbrev pub RunsOn :
      Text → Bool → Option (TursoArguments E.F64) → TursoConnection E C → Nested Db → Type 0
  RunsOn sql persistent args c n =
      ((d : TursoConnection E C) × (T.db d.raw ≡ n.current)
        × (d.transaction_state.pending_rollback_depths ≡ [])
        × (fetch_many_sql E C Q sql persistent args c
            ≡ fetch_inspected E C (inspect_sql sql) sql persistent args d))
      ⊎ ((e : Error) × (d : TursoConnection E C) × (d.transaction_state.rollback_failed ≡ true)
          × (fetch_many_sql E C Q sql persistent args c ≡ (err e, d)))

  module _ (sql : Text) (persistent : Bool) (args : Option (TursoArguments E.F64)) where
    behind :
        (c : TursoConnection E C) (out : Result (Unit {0}) Error × TursoConnection E C)
        → clear_pending_rollback E C Q c ≡ out
        → fetch_many_sql E C Q sql persistent args c
          ≡ and_then (λ _. fetch_inspected E C (inspect_sql sql) sql persistent args) out
    unfolding fetch_many_sql
    behind c out = ap (and_then (λ _. fetch_inspected E C (inspect_sql sql) sql persistent args))

    abbrev crashed : Result (Unit {0}) Error × TursoConnection E C → Bool
    crashed out = out.1.transaction_state.rollback_failed

    Refines-RunsOn :
        (c : TursoConnection E C) (n : Nested Db)
        → Refines E C Q Db T c n
        → RunsOn sql persistent args c n
    Refines-RunsOn c n h =
        go (clear_pending_rollback E C Q c) refl (clear-ClearDone E C Q Db T c n h)
          (clear-Cleared E C Q c)
      where
        go :
            (out : Result (Unit {0}) Error × TursoConnection E C)
            → clear_pending_rollback E C Q c ≡ out
            → ClearDone E C Q Db T n out
            → Cleared E C Q c out
            → RunsOn sql persistent args c n
        go (ok u, d) e s g = inl (d, sym s.current_is, s.owed, behind c (ok u, d) e)
        go (err f, d) e s (inl (a, same)) = inr (f, d, ap crashed same ∙ a, behind c (err f, d) e)
        go (err f, d) e s (inr (a, ends)) = inr (f, d, ends.0, behind c (err f, d) e)

    Rests-RunsOn :
        (c : TursoConnection E C) (n : Nested Db)
        → Rests E C Q Db T n c
        → RunsOn sql persistent args c n
    unfolding clear_pending_rollback
    Rests-RunsOn c n (inl f) =
        inr (worker_crashed, c, f, behind c (err worker_crashed, c) (rw f refl))
    Rests-RunsOn c n (inr h) = Refines-RunsOn c n h

    -- After any calls of the transaction manager on a new connection, each of which may fail, and
    -- some dropped transactions, a query goes to an engine that holds the database which the calls
    -- that succeeded lead to, the dropped transactions rolled back and nothing owed; or a rollback has
    -- failed and the query fails.
    pub persist-new-RunsOn :
        (inert : FailsCleanly T) (os : List (Op E.State Db)) (capacity : ℕ) (s : E.State)
        → All (IsLawful E C Q Db T) os
        → RunsOn sql persistent args (persist E C Q Db os (new E C capacity s)).1 (
            taken E C Q Db os
              (persist E C Q Db os (new E C capacity s)).0
              (record { current = T.db s; marks = [] }))
    persist-new-RunsOn inert os capacity s l =
        Rests-RunsOn (persist E C Q Db os (new E C capacity s)).1 _
          (persist-new-Rests E C Q Db T inert os capacity s l)
