-- ===== src/Executor/Fetch/Owned.antt =====
-- crates/sqlx-turso-core/src/executor.rs: which statement a query runs.
use sqlx_turso.Base.{
  if◌then◌else◌, is_some, if_elim, Result, ok, err, and_then, ◌≡◌, refl, sym, subst, Bool, true,
  false, Option, none, some,
}
use sqlx_turso.Text.{Text}
use sqlx_turso.Error.{EngineError, Error, unsupported_sqlx}
use sqlx_turso.Engine.{Engine}
use sqlx_turso.Action.{Action, fail, pure}
use sqlx_turso.Statement.{StatementCache, TursoStatement, with_raw}
use sqlx_turso.Arguments.{TursoArguments}
use sqlx_turso.Executor.Inspect.{SqlInspection}
use sqlx_turso.Executor.Fetch.{
  rows_state, ItemStream, iter, try_unfold, engine_result, next, placeholder_surface, State,
  on_engine, prepare_sql, prepare_raw, prepare_query_statement, execute_batch_sql, bound_values,
  query_rows, fetch_inspected,
}
use sqlx_turso.Executor.Fetch.Cached.{
  CacheLaws, Prepares, IsPrepared, AreCached, Outcome, prepare_sql-Outcome,
}

module _ (E : Engine) (C : StatementCache E.Statement) (L : CacheLaws C) where
  abbrev pub Held : State E C → Type 0
  Held c = AreCached E C L c.statements

  -- What follows a call, by what the call leaves and gives.
  pub then-Outcome :
      {X Y : Type 0} (P : X → Type 0) (R : Y → Type 0) (k : X → Action (State E C) Y)
      (out : Result X Error × State E C)
      → Outcome E C L P out
      → ((x : X) (d : State E C) → AreCached E C L d.statements → P x → Outcome E C L R (k x d))
      → Outcome E C L R (and_then k out)
  then-Outcome P R k (ok x, d) (h, p) next = next x d h p
  then-Outcome P R k (err e, d) h next = h

  abbrev pub Whatever : {X : Type 0} → X → Type 0
  Whatever _ = Unit

  -- A call of the engine leaves the cache.
  on_engine-Outcome :
      {X : Type 0} (P : X → Type 0) (call : E.State → Result X EngineError × E.State)
      (c : State E C)
      → AreCached E C L c.statements
      → ((x : X) → (call c.raw).0 ≡ ok x → P x)
      → Outcome E C L P (on_engine E C call c)
  on_engine-Outcome {X} P call c h give = answered (call c.raw).0 refl
    where
      answered :
          (a : Result X EngineError)
          → (call c.raw).0 ≡ a
          → Outcome E C L P (engine_result E a, record c { raw = (call c.raw).1 })
      answered (ok x) e = (h, give x e)
      answered (err e) k = h

  prepare_raw-Outcome :
      (q : Text) (c : State E C)
      → AreCached E C L c.statements
      → Outcome E C L (Prepares E q) (prepare_raw E C q c)
  prepare_raw-Outcome q c h =
      on_engine-Outcome (Prepares E q) (E.prepare q) c h (λ raw e. (c.raw, e))

  abbrev pub raw_of : Text → TursoStatement E.Statement → Action (State E C) E.Statement
  raw_of q st = elim (st.raw) [ some raw ↦ pure raw | none ↦ prepare_raw E C q ]

  pub prepare_query_statement-Outcome :
      (q : Text) (persistent : Bool) (c : State E C)
      → AreCached E C L c.statements
      → Outcome E C L (Prepares E q) (prepare_query_statement E C q persistent c)
  unfolding prepare_query_statement with_raw
  prepare_query_statement-Outcome q false c h = prepare_raw-Outcome q c h
  prepare_query_statement-Outcome q true c h =
      then-Outcome (IsPrepared E q) (Prepares E q) (raw_of q) (prepare_sql E C q c)
        (prepare_sql-Outcome E C L q c h)
        (λ st d k p.
          subst (λ (r : TursoStatement E.Statement). Outcome E C L (Prepares E q) (raw_of q r d))
            (sym (p.2)) (k, p.1))

  -- A stream of rows is one of a statement that was prepared from the text.
  abbrev pub RunsOwn : Text → ItemStream E → Type 0
  RunsOwn q (iter _) = Unit
  RunsOwn q (try_unfold (rows_state r)) = Prepares E q r.statement
  RunsOwn q (try_unfold _) = Unit

  query_rows-Outcome :
      (q : Text) (persistent : Bool) (args : Option (TursoArguments E.F64)) (c : State E C)
      → AreCached E C L c.statements
      → Outcome E C L (RunsOwn q) (query_rows E C q persistent args c)
  unfolding query_rows
  query_rows-Outcome q persistent args c h =
      then-Outcome (Prepares E q) (RunsOwn q) _ (prepare_query_statement E C q persistent c)
        (prepare_query_statement-Outcome q persistent c h)
        (λ statement d k p.
          then-Outcome Whatever (RunsOwn q) _
            (on_engine E C (E.query statement (bound_values E C args)) d)
            (on_engine-Outcome Whatever (E.query statement (bound_values E C args)) d k (λ _ _. tt))
            (λ rows t l _. (l, p)))

  execute_batch_sql-Outcome :
      (q : Text) (c : State E C)
      → AreCached E C L c.statements
      → Outcome E C L Whatever (execute_batch_sql E C q c)
  unfolding execute_batch_sql
  execute_batch_sql-Outcome q c h =
      then-Outcome Whatever Whatever _ (on_engine E C (E.execute_batch q) c)
        (on_engine-Outcome Whatever (E.execute_batch q) c h (λ _ _. tt)) (λ _ d k _. (k, tt))

  module _ (q : Text) (persistent : Bool) (args : Option (TursoArguments E.F64)) where
    abbrev Fetches : State E C → Action (State E C) (ItemStream E) → Type 0
    Fetches c m = Outcome E C L (RunsOwn q) (m c)

    abbrev by_placeholder : Option Text → Action (State E C) (ItemStream E)
    by_placeholder o = elim o [
      | none ↦ query_rows E C q persistent args
      | some placeholder ↦
          if is_some args
          then fail (unsupported_sqlx (placeholder_surface placeholder))
          else query_rows E C q persistent args
    ]

    by_placeholder-Outcome :
        (o : Option Text) (c : State E C) → Held c → Fetches c (by_placeholder o)
    by_placeholder-Outcome none c h = query_rows-Outcome q persistent args c h
    by_placeholder-Outcome (some placeholder) c h =
        if_elim (Fetches c) (is_some args) (λ _. h) (λ _. query_rows-Outcome q persistent args c h)

    pub fetch_inspected-Outcome :
        (i : SqlInspection) (c : State E C)
        → Held c
        → Fetches c (fetch_inspected E C i q persistent args)
    unfolding fetch_inspected
    fetch_inspected-Outcome i c h =
        if_elim (Fetches c) i.may_contain_multiple_statements
          (λ _.
            if_elim (Fetches c) (is_some args) (λ _. h)
              (λ _.
                then-Outcome Whatever (RunsOwn q) _ (execute_batch_sql E C q c)
                  (execute_batch_sql-Outcome q c h) (λ items d k _. (k, tt))))
          (λ _. by_placeholder-Outcome i.unsupported_named_placeholder c h)
