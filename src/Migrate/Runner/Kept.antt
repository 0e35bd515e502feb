-- ===== src/Migrate/Runner/Kept.antt =====
-- What a query leaves of the connection whatever the engine does: predicates that do not read the
-- engine's state, nor the cache, and the transaction depth.
use sqlx_turso.Base.{
  if◌then◌else◌, is_some, if_elim, Result, ok, err, and_then, ◌≡◌, refl, ap, ◌∙◌, inl, inr, Bool,
  true, false, Option, none, some, List,
}
use sqlx_turso.Text.{Text}
use sqlx_turso.Error.{Error, unsupported_sqlx}
use sqlx_turso.Engine.{Engine, AnsiSql}
use sqlx_turso.Action.{Action, ◌>>=◌, pure, fail}
use sqlx_turso.Column.{turso_columns}
use sqlx_turso.Statement.{TursoStatement, with_raw, StatementCache}
use sqlx_turso.Arguments.{TursoArguments}
use sqlx_turso.Connection.{clear_pending_rollback, cached_statement, cache_statement}
use sqlx_turso.Transaction.Invariant.{Cleared, clear-Cleared}
use sqlx_turso.Executor.Inspect.{SqlInspection, inspect_sql}
use sqlx_turso.Executor.Fetch.{
  ItemStream, placeholder_surface, State, on_engine, prepare_sql, prepare_raw,
  prepare_query_statement, execute_batch_sql, bound_values, query_rows, fetch_inspected,
  fetch_many_sql,
}
use sqlx_turso.Executor.Fetch.Optional.{fetch_many}
use sqlx_turso.Migrate.Runner.{Bound, Collector, bound_arguments, collected, run_query}

module _ (E : Engine) (C : StatementCache E.Statement) (Q : AnsiSql) where
  -- The transaction state is that of `c`.
  abbrev Untouched : {X : Type 0} → State E C → Result X Error × State E C → Type 0
  Untouched c out = out.1.transaction_state ≡ c.transaction_state

  abbrev Keeps : {X : Type 0} → State E C → Action (State E C) X → Type 0
  Keeps c m = Untouched c (m c)

  then-Untouched :
      {X Y : Type 0} (k : X → Action (State E C) Y) (c : State E C)
      (out : Result X Error × State E C)
      → Untouched c out
      → ((x : X) (d : State E C) → Untouched d (k x d))
      → Untouched c (and_then k out)
  then-Untouched k c (ok x, d) h later = later x d ∙ h
  then-Untouched k c (err e, d) h later = h

  cache_statement-state :
      (q : Text) (st : TursoStatement E.Statement) (d : State E C)
      → (cache_statement E C q st d).transaction_state ≡ d.transaction_state
  unfolding cache_statement
  cache_statement-state q st d =
      if_elim (λ (e : State E C). e.transaction_state ≡ d.transaction_state)
        (C.is_enabled d.statements) (λ _. refl) (λ _. refl)

  prepare_sql-Untouched : (q : Text) (c : State E C) → Untouched c (prepare_sql E C q c)
  unfolding prepare_sql cached_statement
  prepare_sql-Untouched q c = found (C.get_mut q c.statements).0
    where
      looked : State E C
      looked = record c { statements = (C.get_mut q c.statements).1 }

      anew : E.Statement → Action (State E C) (TursoStatement E.Statement)
      anew raw d =
          let statement = with_raw q (turso_columns (E.columns raw)) raw in
          (ok statement, cache_statement E C q statement d)

      found :
          (hit : Option (TursoStatement E.Statement))
          → Untouched {X = TursoStatement E.Statement} c (elim hit [
            | some statement ↦ (ok statement, looked)
            | none ↦ (on_engine E C (E.prepare q) >>= anew) looked
          ])
      found (some st) = refl
      found none =
          then-Untouched anew c (on_engine E C (E.prepare q) looked) refl
            (λ raw d. cache_statement-state q (with_raw q (turso_columns (E.columns raw)) raw) d)

  prepare_query_statement-Untouched :
      (q : Text) (persistent : Bool) (c : State E C)
      → Untouched c (prepare_query_statement E C q persistent c)
  unfolding prepare_query_statement
  prepare_query_statement-Untouched q false c = refl
  prepare_query_statement-Untouched q true c =
      then-Untouched _ c (prepare_sql E C q c) (prepare_sql-Untouched q c) (λ st d. by_raw st.raw d)
    where
      by_raw :
          (r : Option E.Statement) (d : State E C)
          → Keeps {X = E.Statement} d (elim r [ some raw ↦ pure raw | none ↦ prepare_raw E C q ])
      by_raw (some raw) d = refl
      by_raw none d = refl

  module _ (q : Text) (persistent : Bool) (args : Option (TursoArguments E.F64)) where
    query_rows-Untouched : (c : State E C) → Untouched c (query_rows E C q persistent args c)
    unfolding query_rows
    query_rows-Untouched c =
        then-Untouched _ c (prepare_query_statement E C q persistent c)
          (prepare_query_statement-Untouched q persistent c)
          (λ st d.
            then-Untouched _ d (on_engine E C (E.query st (bound_values E C args)) d) refl
              (λ rows t. refl))

    fetch_inspected-Untouched :
        (i : SqlInspection) (c : State E C)
        → Untouched c (fetch_inspected E C i q persistent args c)
    unfolding fetch_inspected execute_batch_sql
    fetch_inspected-Untouched i c =
        if_elim (Keeps {X = ItemStream E} c) i.may_contain_multiple_statements
          (λ _.
            if_elim (Keeps {X = ItemStream E} c) (is_some args) (λ _. refl)
              (λ _.
                then-Untouched _ c (execute_batch_sql E C q c)
                  (then-Untouched _ c (on_engine E C (E.execute_batch q) c) refl (λ u d. refl))
                  (λ items d. refl)))
          (λ _. placeholder i.unsupported_named_placeholder)
      where
        placeholder :
            (o : Option Text)
            → Keeps {X = ItemStream E} c (elim o [
              | none ↦ query_rows E C q persistent args
              | some name ↦
                  if is_some args
                  then fail (unsupported_sqlx (placeholder_surface name))
                  else query_rows E C q persistent args
            ])
        placeholder none = query_rows-Untouched c
        placeholder (some name) =
            if_elim (Keeps {X = ItemStream E} c) (is_some args) (λ _. refl)
              (λ _. query_rows-Untouched c)

  -- A query opens and closes no transaction of the connection: the clearing in front of it keeps the
  -- depth.
  pub run_query-depth :
      (K : Collector E) (sql : Text) (bs : List Bound) (c : State E C)
      → (run_query E C Q K sql bs c).1.transaction_state.depth ≡ c.transaction_state.depth
  unfolding run_query fetch_many fetch_many_sql
  run_query-depth K sql bs c = go (clear_pending_rollback E C Q c) (clear-Cleared E C Q c)
    where
      fetch : Action (State E C) (ItemStream E)
      fetch = fetch_inspected E C (inspect_sql sql) sql K.persistent (bound_arguments bs)

      go :
          (out : Result (Unit {0}) Error × State E C)
          → Cleared E C Q c out
          → (and_then (collected E C Q K) (and_then (λ _. fetch) out)).1.transaction_state.depth
            ≡ c.transaction_state.depth
      go (ok _, d) (inl (f, h)) = cc
      go (err _, d) (inl (f, h)) = ap (λ o. o.1.transaction_state.depth) h
      go (ok _, d) (inr (f, h)) =
          ap (λ t. t.depth)
            (then-Untouched (collected E C Q K) d (fetch d)
              (fetch_inspected-Untouched sql K.persistent (bound_arguments bs) (inspect_sql sql) d)
              (λ stream e. refl))
          ∙ h.1
      go (err _, d) (inr (f, h)) = h.1
