-- ===== src/Migrate/Runner/Quiet.antt =====
-- Preparing a statement leaves the database and the transactions, where the engine does so.
use sqlx_turso.Base.{
  if_elim, Result, ok, err, and_then, ℕ, ◌≡◌, refl, ◌∙◌, Bool, true, false, Option, none, some,
}
use sqlx_turso.Text.{Text}
use sqlx_turso.Error.{EngineError, Error}
use sqlx_turso.Engine.{Engine, AnsiSql}
use sqlx_turso.Action.{Action, ◌>>=◌, pure}
use sqlx_turso.Column.{turso_columns}
use sqlx_turso.Statement.{TursoStatement, with_raw, StatementCache}
use sqlx_turso.Connection.{cached_statement, cache_statement}
use sqlx_turso.Transaction.Laws.{Transactional}
use sqlx_turso.Executor.Fetch.{
  engine_result, State, on_engine, prepare_sql, prepare_raw, prepare_query_statement,
}
use sqlx_turso.Executor.Fetch.Cached.{CacheLaws, prepared_anew}
use sqlx_turso.Executor.Fetch.Owned.{raw_of}

module _ (E : Engine) (C : StatementCache E.Statement) (Q : AnsiSql) (Db : Type 0)
    (T : Transactional E Q Db) (L : CacheLaws C) where
  -- The marks stay.
  abbrev pub Marks : E.State → E.State → Type 0
  Marks s t = (j : ℕ) → T.saved t j ≡ T.saved s j

  abbrev pub Same : E.State → E.State → Type 0
  Same s t = (T.db t ≡ T.db s) × Marks s t

  -- The connection behind a call that leaves the database: its transactions are as they were.
  abbrev pub Quiet : State E C → State E C → Type 0
  Quiet c d = (d.transaction_state ≡ c.transaction_state) × Same c.raw d.raw

  abbrev QuietBehind : {X : Type 0} → State E C → Result X Error × State E C → Type 0
  QuietBehind c out = Quiet c out.1

  Quiet-trans : (b c d : State E C) → Quiet b c → Quiet c d → Quiet b d
  Quiet-trans b c d (e, (db, m)) (f, (db2, n)) = (f ∙ e, (db2 ∙ db, λ j. n j ∙ m j))

  cache_statement-Quiet :
      (q : Text) (st : TursoStatement E.Statement) (c d : State E C)
      → Quiet c d
      → Quiet c (cache_statement E C q st d)
  unfolding cache_statement
  cache_statement-Quiet q st c d h = if_elim (Quiet c) (C.is_enabled d.statements) (λ _. h) (λ _. h)

  module _ (prepare_law : (q : Text) (s : E.State) → Same s (E.prepare q s).1) where
    prepare_raw-Quiet : (q : Text) (c : State E C) → Quiet c (prepare_raw E C q c).1
    prepare_raw-Quiet q c = (refl, prepare_law q c.raw)

    prepare_sql-Quiet : (q : Text) (c : State E C) → Quiet c (prepare_sql E C q c).1
    unfolding prepare_sql cached_statement
    prepare_sql-Quiet q c = found (C.get_mut q c.statements).0
      where
        looked : State E C
        looked = record c { statements = (C.get_mut q c.statements).1 }

        asked : State E C
        asked = record looked { raw = (E.prepare q c.raw).1 }

        anew :
            (a : Result E.Statement EngineError)
            → Quiet c (and_then (prepared_anew E C L q) (engine_result E a, asked)).1
        anew (ok raw) =
            cache_statement-Quiet q (with_raw q (turso_columns (E.columns raw)) raw) c asked
              (refl, prepare_law q c.raw)
        anew (err e) = (refl, prepare_law q c.raw)

        found :
            (hit : Option (TursoStatement E.Statement))
            → QuietBehind {X = TursoStatement E.Statement} c (elim hit [
              | some statement ↦ (ok statement, looked)
              | none ↦ (on_engine E C (E.prepare q) >>= prepared_anew E C L q) looked
            ])
        found (some st) = (refl, (refl, λ j. refl))
        found none = anew (E.prepare q c.raw).0

    raw_of-Quiet :
        (q : Text) (c : State E C) (out : Result (TursoStatement E.Statement) Error × State E C)
        → Quiet c out.1
        → Quiet c (and_then (raw_of E C L q) out).1
    raw_of-Quiet q c (err e, d) h = h
    raw_of-Quiet q c (ok st, d) h = by_raw st.raw
      where
        by : Option E.Statement → Action (State E C) E.Statement
        by r = elim r [ some raw ↦ pure raw | none ↦ prepare_raw E C q ]

        by_raw : (r : Option E.Statement) → QuietBehind c (by r d)
        by_raw (some raw) = h
        by_raw none = Quiet-trans c d (prepare_raw E C q d).1 h (prepare_raw-Quiet q d)

    pub prepare_query_statement-Quiet :
        (q : Text) (persistent : Bool) (c : State E C)
        → Quiet c (prepare_query_statement E C q persistent c).1
    unfolding prepare_query_statement
    prepare_query_statement-Quiet q false c = prepare_raw-Quiet q c
    prepare_query_statement-Quiet q true c =
        raw_of-Quiet q c (prepare_sql E C q c) (prepare_sql-Quiet q c)
