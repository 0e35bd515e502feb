-- ===== src/Executor/Fetch/Calls.antt =====
-- crates/sqlx-turso-core/src/executor.rs, connection.rs and transaction.rs: the statement cache behind
-- any calls on a connection.
use sqlx_turso.Base.{
  ltb, ◌==◌, is_some, if_elim, Result, ok, err, and_then, ℕ, Bool, ◌&&◌, Option, List, [], ◌∷◌,
}
use sqlx_turso.Text.{Text}
use sqlx_turso.Error.{EngineError, Error}
use sqlx_turso.Engine.{Engine, AnsiSql}
use sqlx_turso.Action.{Action, and_then-keeps, ◌>>◌}
use sqlx_turso.Statement.{StatementCache}
use sqlx_turso.Arguments.{TursoArguments}
use sqlx_turso.Connection.{
  TransactionState, increment_depth, decrement_depth, new, settle, sent, clear_loop,
  clear_pending_rollback, clear_cached_statements,
}
use sqlx_turso.Transaction.{
  execute_raw, on_state, begin_text, begin_cleared, begin, end_cleared, rollback, start_rollback,
}
use sqlx_turso.Executor.Inspect.{inspect_sql}
use sqlx_turso.Executor.Fetch.{State, prepare_sql, fetch_many_sql}
use sqlx_turso.Executor.Fetch.Cached.{CacheLaws, IsPrepared, Outcome, prepare_sql-Outcome}
use sqlx_turso.Executor.Fetch.Owned.{Held, then-Outcome, Whatever, RunsOwn, fetch_inspected-Outcome}

module _ (E : Engine) (C : StatementCache E.Statement) (L : CacheLaws C) where
  settle-Held :
      (depth : ℕ) (answer : Result (Unit {0}) EngineError) (c : State E C)
      (rest : Result (Unit {0}) Error × State E C)
      → Held E C L c
      → Held E C L rest.1
      → Held E C L (settle E C depth answer c rest).1
  unfolding settle
  settle-Held depth (ok _) c rest h k = k
  settle-Held depth (err e) c rest h k =
      if_elim (λ (out : Result (Unit {0}) Error × State E C). Held E C L out.1) _ (λ _. k) (λ _. h)

  module _ (Q : AnsiSql) where
    clear_loop-Held :
        (depths : List ℕ) (c : State E C) → Held E C L c → Held E C L (clear_loop E C Q depths c).1
    unfolding clear_loop
    clear_loop-Held [] c h = h
    clear_loop-Held (depth ∷ rest) c h =
        settle-Held depth (E.execute (Q.rollback_sql depth) c.raw).0 (sent E C Q depth rest c) _ h
          (clear_loop-Held rest (sent E C Q depth rest c) h)

    pub clear-Held : (c : State E C) → Held E C L c → Held E C L (clear_pending_rollback E C Q c).1
    unfolding clear_pending_rollback
    clear-Held c h =
        if_elim (λ (out : Result (Unit {0}) Error × State E C). Held E C L out.1)
          c.transaction_state.rollback_failed (λ _. h)
          (λ _. clear_loop-Held c.transaction_state.pending_rollback_depths c h)

    unit-Outcome :
        (out : Result (Unit {0}) Error × State E C)
        → Held E C L out.1
        → Outcome E C L (Whatever E C L) out
    unit-Outcome (ok u, c) h = (h, tt)
    unit-Outcome (err e, c) h = h

    Outcome-Held :
        {X : Type 0} (P : X → Type 0) (out : Result X Error × State E C)
        → Outcome E C L P out
        → Held E C L out.1
    Outcome-Held P (ok x, c) (h, _) = h
    Outcome-Held P (err e, c) h = h

    pub fetch_many_sql-Outcome :
        (q : Text) (persistent : Bool) (args : Option (TursoArguments E.F64)) (c : State E C)
        → Held E C L c
        → Outcome E C L (RunsOwn E C L q) (fetch_many_sql E C Q q persistent args c)
    unfolding fetch_many_sql
    fetch_many_sql-Outcome q persistent args c h =
        then-Outcome E C L (Whatever E C L) (RunsOwn E C L q) _ (clear_pending_rollback E C Q c)
          (unit-Outcome (clear_pending_rollback E C Q c) (clear-Held c h))
          (λ _ d k _. fetch_inspected-Outcome E C L q persistent args (inspect_sql q) d k)

    -- Behind the clearing, a statement for the engine and a change of the transaction state.
    cleared-Held :
        (k : Action (State E C) (Unit {0})) (c : State E C)
        → ((d : State E C) → Held E C L d → Held E C L (k d).1)
        → Held E C L c
        → Held E C L (and_then (λ _. k) (clear_pending_rollback E C Q c)).1
    cleared-Held k c later h =
        and_then-keeps (Held E C L) k (clear_pending_rollback E C Q c) (clear-Held c h) later

    executed-Held :
        (sql : Text) (f : TransactionState → TransactionState) (c : State E C)
        → Held E C L c
        → Held E C L ((execute_raw E C Q sql >> on_state E C Q f) c).1
    unfolding execute_raw
    executed-Held sql f c h =
        and_then-keeps (Held E C L) (on_state E C Q f) (execute_raw E C Q sql c) h (λ d k. k)

    begin_cleared-Held :
        (statement : Option Text) (c : State E C)
        → Held E C L c
        → Held E C L (begin_cleared E C Q statement c).1
    unfolding begin_cleared
    begin_cleared-Held statement c h =
        if_elim (λ (out : Result (Unit {0}) Error × State E C). Held E C L out.1)
          (is_some statement && ltb 0 c.transaction_state.depth) (λ _. h)
          (λ _.
            executed-Held (begin_text E C Q statement c.transaction_state.depth) increment_depth c
              h)

    end_cleared-Held :
        (sql : ℕ → Text) (c : State E C) → Held E C L c → Held E C L (end_cleared E C Q sql c).1
    unfolding end_cleared
    end_cleared-Held sql c h =
        if_elim (λ (out : Result (Unit {0}) Error × State E C). Held E C L out.1)
          (c.transaction_state.depth == 0) (λ _. h)
          (λ _. executed-Held (sql c.transaction_state.depth) decrement_depth c h)

-- The calls on a connection. Between them the engine may move on, as where a stream is polled.
pub data Call (E : Engine) : Type 0 where
  begins : Option Text → Call E
  commits rolls_back drops clears : Call E
  prepares : Text → Call E
  fetches : Text → Bool → Option (TursoArguments E.F64) → Call E
  moves : (E.State → E.State) → Call E

module _ (E : Engine) (C : StatementCache E.Statement) (Q : AnsiSql) where
  -- The connection behind a call, whether it fails or not.
  abbrev behind_call : Call E → State E C → State E C
  behind_call (begins statement) c = (begin E C Q statement c).1
  behind_call commits c = (sqlx_turso.Transaction.commit E C Q c).1
  behind_call rolls_back c = (rollback E C Q c).1
  behind_call drops c = start_rollback E C Q c
  behind_call clears c = (clear_cached_statements E C c).1
  behind_call (prepares q) c = (prepare_sql E C q c).1
  behind_call (fetches q persistent args) c = (fetch_many_sql E C Q q persistent args c).1
  behind_call (moves f) c = record c { raw = f c.raw }

  abbrev pub behind_all : List (Call E) → State E C → State E C
  behind_all [] c = c
  behind_all (k ∷ ks) c = behind_all ks (behind_call k c)

module _ (E : Engine) (C : StatementCache E.Statement) (L : CacheLaws C) (Q : AnsiSql) where
  pub call-Held : (k : Call E) (c : State E C) → Held E C L c → Held E C L (behind_call E C Q k c)
  unfolding begin sqlx_turso.Transaction.commit rollback start_rollback clear_cached_statements
  call-Held (begins statement) c h =
      cleared-Held E C L Q (begin_cleared E C Q statement) c (begin_cleared-Held E C L Q statement)
        h
  call-Held commits c h =
      cleared-Held E C L Q (end_cleared E C Q Q.commit_sql) c
        (end_cleared-Held E C L Q Q.commit_sql) h
  call-Held rolls_back c h =
      cleared-Held E C L Q (end_cleared E C Q Q.rollback_sql) c
        (end_cleared-Held E C L Q Q.rollback_sql) h
  call-Held drops c h = h
  call-Held clears c h = λ q st k. absurd (L.clear_law q c.statements st k)
  call-Held (prepares q) c h =
      Outcome-Held E C L Q (IsPrepared E q) (prepare_sql E C q c) (prepare_sql-Outcome E C L q c h)
  call-Held (fetches q persistent args) c h =
      Outcome-Held E C L Q (RunsOwn E C L q) (fetch_many_sql E C Q q persistent args c)
        (fetch_many_sql-Outcome E C L Q q persistent args c h)
  call-Held (moves f) c h = h

  all-Held :
      (ks : List (Call E)) (c : State E C) → Held E C L c → Held E C L (behind_all E C Q ks c)
  all-Held [] c h = h
  all-Held (k ∷ ks) c h = all-Held ks (behind_call E C Q k c) (call-Held k c h)

  -- Behind any calls on a new connection, each of which may fail, over a cache that holds what was
  -- inserted into it: where `prepare_sql` gives a statement, it is one that the engine prepared from
  -- this text, with its columns, and where a query gives a stream of rows, its statement is one that
  -- the engine prepared from the text of the query.
  pub new-RunsOwn :
      (capacity : ℕ) (raw : E.State) (ks : List (Call E)) (q : Text) (persistent : Bool)
      (args : Option (TursoArguments E.F64))
      → Outcome E C L
          (IsPrepared E q)
          (prepare_sql E C q (behind_all E C Q ks (new E C capacity raw)))
        × Outcome E C L
            (RunsOwn E C L q)
            (fetch_many_sql E C Q q persistent args (behind_all E C Q ks (new E C capacity raw)))
  unfolding new
  new-RunsOwn capacity raw ks q persistent args =
      let c = behind_all E C Q ks (new E C capacity raw) in
      let held =
        all-Held ks (new E C capacity raw) (λ q st k. absurd (L.empty_law capacity q st k)) in
      (prepare_sql-Outcome E C L q c held, fetch_many_sql-Outcome E C L Q q persistent args c held)
