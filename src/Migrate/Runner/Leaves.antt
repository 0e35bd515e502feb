-- ===== src/Migrate/Runner/Leaves.antt =====
-- What a query leaves of the engine and of the connection, where nothing is owed.
use sqlx_turso.Base.{
  if◌then◌else◌, is_some, if_elim, Result, ok, err, and_then, ◌≡◌, refl, sym, ap, subst, ◌∙◌, Bool,
  false, Option, none, some, List, [], ◌∷◌,
}
use sqlx_turso.Text.{Text, codes}
use sqlx_turso.Error.{EngineError, Error, unsupported_sqlx, from_turso}
use sqlx_turso.Engine.{EngineValue, Engine, AnsiSql}
use sqlx_turso.Action.{Action, pure, fail}
use sqlx_turso.Column.{turso_columns, collect_column_names}
use sqlx_turso.Statement.{StatementCache}
use sqlx_turso.Arguments.{TursoArguments}
use sqlx_turso.Transaction.Laws.{Transactional}
use sqlx_turso.Row.{no_rows_affected}
use sqlx_turso.Executor.Inspect.{SqlInspection}
use sqlx_turso.Executor.Fetch.{
  Item, left, rows_state, ItemStream, iter, try_unfold, engine_result, placeholder_surface, State,
  on_engine, prepare_query_statement, execute_batch_sql, bound_values, query_rows, fetch_inspected,
}
use sqlx_turso.Executor.Fetch.Cached.{CacheLaws, Prepares, AreCached, Outcome}
use sqlx_turso.Executor.Fetch.Owned.{prepare_query_statement-Outcome}
use sqlx_turso.Migrate.Runner.{Collector, collected}
use sqlx_turso.Migrate.Runner.Quiet.{Marks, Same, Quiet, prepare_query_statement-Quiet}

module _ (E : Engine) (C : StatementCache E.Statement) (Q : AnsiSql) (Db : Type 0)
    (T : Transactional E Q Db) (L : CacheLaws C) (K : Collector E) where
  -- What succeeds has the effect `f`, what fails leaves a database that `Bad` allows.
  abbrev pub Ran :
      {A X : Type 0} → (Db → Db) → (Db → Db → Type 0) → E.State → Result A X × E.State → Type 0
  Ran f Bad s (ok _, t) = (T.db t ≡ f (T.db s)) × Marks E C Q Db T L s t
  Ran f Bad s (err _, t) = Bad (T.db s) (T.db t) × Marks E C Q Db T L s t

  -- The statement queried with the values, and the stream of its rows taken to its end.
  abbrev begun_rows : E.Statement → E.Rows → ItemStream E
  begun_rows statement rows =
      let columns = turso_columns (E.columns statement) in
      try_unfold (
        rows_state (record {
          rows = rows;
          statement = statement;
          columns = columns;
          column_names = collect_column_names columns;
          pending_row = none;
        }))

  abbrev taken_rows :
      E.Statement → Result E.Rows EngineError × E.State → Result (Unit {0}) Error × E.State
  taken_rows statement (ok rows, t) = K.collect (begun_rows statement rows) t
  taken_rows statement (err e, t) = (err (from_turso E.display e), t)

  abbrev pub queried :
      E.Statement → List (EngineValue E.F64) → E.State → Result (Unit {0}) Error × E.State
  queried statement values s = taken_rows statement (E.query statement values s)

  module _ (f : Db → Db) (Bad : Db → Db → Type 0) where
    Ran-after :
        {A X : Type 0} (s t : E.State) (out : Result A X × E.State)
        → Same E C Q Db T L s t
        → Ran f Bad t out
        → Ran f Bad s out
    Ran-after s t (ok _, u) (e, m) (h, n) = (h ∙ ap f e, λ j. n j ∙ m j)
    Ran-after s t (err _, u) (e, m) (h, n) = (subst (λ x. Bad x (T.db u)) e h, λ j. n j ∙ m j)

    -- The connection behind a query: the transactions are as they were, and so is what the cache
    -- holds.
    abbrev pub Leaves : State E C → Result (Unit {0}) Error × State E C → Type 0
    Leaves c out =
        (out.1.transaction_state ≡ c.transaction_state)
        × AreCached E C L out.1.statements
        × Ran f Bad c.raw (out.0, out.1.raw)

    Leaves-after :
        (c d : State E C) (out : Result (Unit {0}) Error × State E C)
        → Quiet E C Q Db T L c d
        → Leaves d out
        → Leaves c out
    Leaves-after c d out (e, same) (h, k, r) =
        (h ∙ e, k, Ran-after c.raw d.raw (out.0, out.1.raw) same r)

    rows-Leaves :
        (st : E.Statement) (d : State E C) (t : E.State) (a : Result E.Rows EngineError)
        → AreCached E C L d.statements
        → Ran f Bad d.raw (taken_rows st (a, t))
        → Leaves d (
            and_then (collected E C Q K) (
              and_then
                (λ rows. pure (begun_rows st rows))
                (engine_result E a, record d { raw = t })))
    rows-Leaves st d t (ok rows) h r = (refl, h, r)
    rows-Leaves st d t (err e) h r = (refl, h, r)

    batch-Leaves :
        (items : List (Item E.F64)) (d : State E C) (t : E.State)
        (a : Result (Unit {0}) EngineError)
        → AreCached E C L d.statements
        → ((s : E.State) → K.collect (iter items) s ≡ (ok tt, s))
        → Ran f Bad d.raw (a, t)
        → Leaves d (
            and_then (collected E C Q K) (
              and_then
                (λ items. pure (iter items))
                (and_then (λ _. pure items) (engine_result E a, record d { raw = t }))))
    batch-Leaves items d t (ok u) h taken r = (refl, h, subst (Ran f Bad d.raw) (sym (taken t)) r)
    batch-Leaves items d t (err e) h taken r = (refl, h, r)

    refused-Leaves :
        (bad_refl : (x : Db) → Bad x x) (e : Error) (c d : State E C)
        → AreCached E C L d.statements
        → Quiet E C Q Db T L c d
        → Leaves c (err e, d)
    refused-Leaves bad_refl e c d h (g, (same, m)) =
        (g, h, (subst (Bad (T.db c.raw)) (sym same) (bad_refl (T.db c.raw)), m))

    module _ (prepare_law : (q : Text) (s : E.State) → Same E C Q Db T L s (E.prepare q s).1)
        (iter_law : (items : List (Item E.F64)) (s : E.State)
          → K.collect (iter items) s ≡ (ok tt, s))
        (bad_refl : (x : Db) → Bad x x) (q : Text) (args : Option (TursoArguments E.F64)) where
      -- What is asked of the engine's queries of this text.
      abbrev RunsWell : Type 0
      RunsWell =
          ((st : E.Statement) (s : E.State)
            → Prepares E q st
            → Ran f Bad s (queried st (bound_values E C args) s))
          × (is_some args ≡ false → (s : E.State) → Ran f Bad s (E.execute_batch q s))

      prepared-Leaves :
          (c : State E C) (out : Result E.Statement Error × State E C)
          → RunsWell
          → Quiet E C Q Db T L c out.1
          → Outcome E C L (Prepares E q) out
          → Leaves c (
              and_then (collected E C Q K) (
                and_then
                  (λ statement d.
                    and_then
                      (λ rows. pure (begun_rows statement rows))
                      (on_engine E C (E.query statement (bound_values E C args)) d))
                  out))
      prepared-Leaves c (ok st, d) w quiet (h, p) = Leaves-after c d _ quiet (
          rows-Leaves st d (E.query st (bound_values E C args) d.raw).1
            (E.query st (bound_values E C args) d.raw).0 h (w.0 st d.raw p))
      prepared-Leaves c (err e, d) w quiet h = refused-Leaves bad_refl e c d h quiet

      abbrev Fetched : State E C → Action (State E C) (ItemStream E) → Type 0
      Fetched c m = Leaves c (and_then (collected E C Q K) (m c))

      query_rows-Leaves :
          (persistent : Bool) (c : State E C)
          → RunsWell
          → AreCached E C L c.statements
          → Fetched c (query_rows E C q persistent args)
      unfolding query_rows
      query_rows-Leaves persistent c w h =
          prepared-Leaves c (prepare_query_statement E C q persistent c) w
            (prepare_query_statement-Quiet E C Q Db T L prepare_law q persistent c)
            (prepare_query_statement-Outcome E C L q persistent c h)

      pub fetch_inspected-Leaves :
          (i : SqlInspection) (persistent : Bool) (c : State E C)
          → RunsWell
          → AreCached E C L c.statements
          → Fetched c (fetch_inspected E C i q persistent args)
      unfolding fetch_inspected execute_batch_sql
      fetch_inspected-Leaves i persistent c w h =
          if_elim (Fetched c) i.may_contain_multiple_statements
            (λ _.
              if_elim (Fetched c) (is_some args)
                (λ _.
                  refused-Leaves bad_refl
                    (unsupported_sqlx (codes "Turso SQLx batch query arguments")) c c h
                    (refl, (refl, λ j. refl)))
                (λ absent.
                  batch-Leaves (left no_rows_affected ∷ []) c (E.execute_batch q c.raw).1
                    (E.execute_batch q c.raw).0 h (iter_law (left no_rows_affected ∷ []))
                    (w.1 absent c.raw)))
            (λ _. placeholder i.unsupported_named_placeholder)
        where
          placeholder :
              (o : Option Text)
              → Fetched c (elim o [
                | none ↦ query_rows E C q persistent args
                | some name ↦
                    if is_some args
                    then fail (unsupported_sqlx (placeholder_surface name))
                    else query_rows E C q persistent args
              ])
          placeholder none = query_rows-Leaves persistent c w h
          placeholder (some name) =
              if_elim (Fetched c) (is_some args)
                (λ _.
                  refused-Leaves bad_refl (unsupported_sqlx (placeholder_surface name)) c c h
                    (refl, (refl, λ j. refl)))
                (λ _. query_rows-Leaves persistent c w h)
