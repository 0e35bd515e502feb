-- ===== src/Migrate/Runs/Applied.antt =====
-- crates/sqlx-turso-core/src/migrate.rs: what `apply` and `revert` leave in the database.
use sqlx_turso.Base.{Result, ok, err, ℤ, ◌≡◌, refl, ◌⊎◌, inl, inr, true, false, [], ◌∷◌}
use sqlx_turso.Text.{Text}
use sqlx_turso.Engine.{Engine, AnsiSql}
use sqlx_turso.Statement.{StatementCache}
use sqlx_turso.Connection.{TursoConnection}
use sqlx_turso.Transaction.Laws.{Transactional}
use sqlx_turso.Transaction.Refinement.{Nested, begun, Refines}
use sqlx_turso.Transaction.Refinement.Failing.{FailsCleanly, Rests, Attains}
use sqlx_turso.Migrate.Identifier.{MigrateError, execute, SqliteIdentifierPath, parse_path}
use sqlx_turso.Migrate.Runs.{
  Migration, update_text, insert_text, then_step, insert_migration_row, execute_step, revert_step,
  Ended, result, left_by, run_body, finish_apply, apply, finish_revert, revert,
}
use sqlx_turso.Migrate.Runs.Atomic.{
  row, migrated, timed, reverted, lifted-Attains, execute_step-Steps, revert_step-Steps,
  execute_step-Held, Whole, run_body-Whole, run_body-Held,
}
use sqlx_turso.Executor.Fetch.Cached.{CacheLaws}
use sqlx_turso.Executor.Fetch.Owned.{Held}
use sqlx_turso.Migrate.Runner.{number, string, bytes, flag, Collector}
use sqlx_turso.Migrate.Runs.Laws.{on_db, QueryLaws, run_query-failed, bound-Attains}
use sqlx_turso.Migrate.Runs.Depth.{ended}

module _ (E : Engine) (C : StatementCache E.Statement) (Q : AnsiSql) (Db : Type 0)
    (T : Transactional E Q Db) (inert : FailsCleanly T) (L : CacheLaws C) (K : Collector E)
    (q : QueryLaws E C Q Db T L K) where
  -- What `apply` leaves: all of the migration, or, where it fails, nothing of it, nothing but a row
  -- that says so, or all but the time that it took.
  abbrev pub Applied :
      SqliteIdentifierPath
      → Migration
      → ℤ
      → Nested Db
      → Result (Unit {0}) MigrateError × TursoConnection E C
      → Type 0
  Applied table m elapsed n (ok _, d) =
      Refines E C Q Db T d
        (on_db (λ x. timed q.effect table m elapsed (migrated q.effect table m x)) n)
  Applied table m elapsed n (err _, d) =
      Rests E C Q Db T n d
      ⊎ (Refines E C Q Db T d (on_db (row q.effect table m false) n)
          ⊎ Refines E C Q Db T d (on_db (migrated q.effect table m) n))

  recorded-Applied :
      (table : SqliteIdentifierPath) (m : Migration) (elapsed : ℤ) (n : Nested Db)
      (e : MigrateError) (out : Result (Unit {0}) MigrateError × TursoConnection E C)
      → Attains E C Q Db T (on_db (row q.effect table m false) n) n out
      → Applied table m elapsed n (then_step (λ d. (err e, d)) out)
  recorded-Applied table m elapsed n e (ok _, d) h = inr (inl h)
  recorded-Applied table m elapsed n e (err f, d) h = inl h

  crashed-Applied :
      (table : SqliteIdentifierPath) (m : Migration) (elapsed : ℤ) (n : Nested Db)
      (e : MigrateError) (out : Result (Unit {0}) MigrateError × TursoConnection E C)
      → out.1.transaction_state.rollback_failed ≡ true
      → Applied table m elapsed n (then_step (λ d. (err e, d)) out)
  crashed-Applied table m elapsed n e (ok _, d) h = inl (inl h)
  crashed-Applied table m elapsed n e (err f, d) h = inl (inl h)

  timed-Applied :
      (table : SqliteIdentifierPath) (m : Migration) (elapsed : ℤ) (n : Nested Db)
      (out : Result (Unit {0}) MigrateError × TursoConnection E C)
      → Attains E C Q Db T
          (on_db (λ x. timed q.effect table m elapsed (migrated q.effect table m x)) n)
          (on_db (migrated q.effect table m) n)
          out
      → Applied table m elapsed n out
  timed-Applied table m elapsed n (ok _, d) h = h
  timed-Applied table m elapsed n (err e, d) (inl h) = inl (inl h)
  timed-Applied table m elapsed n (err e, d) (inr h) = inr (inr h)

  finish_apply-Applied :
      (table : SqliteIdentifierPath) (m : Migration) (elapsed : ℤ) (n : Nested Db)
      (out : Ended E C Q K)
      → Whole E C Q Db T inert L K q (migrated q.effect table m) n out
      → Held E C L (ended E C Q K out)
      → Applied table m elapsed n (finish_apply E C Q K table m elapsed out)
  finish_apply-Applied table m elapsed n (left_by e d) h k = inl h
  finish_apply-Applied table m elapsed n (result (err e, d)) (inl h) k =
      crashed-Applied table m elapsed n e (insert_migration_row E C Q K table m false d) (
        run_query-failed E C Q Db T L K (insert_text table)
          (number m.version ∷ string m.description ∷ flag false ∷ bytes m.checksum ∷ []) d h)
  finish_apply-Applied table m elapsed n (result (err e, d)) (inr h) k =
      recorded-Applied table m elapsed n e (insert_migration_row E C Q K table m false d) (
        lifted-Attains E C Q Db T inert L K q _ n execute _ (
          bound-Attains E C Q Db T L K q (insert_text table) (number m.version)
            (string m.description ∷ flag false ∷ bytes m.checksum ∷ []) d n (table, inl refl) h k))
  finish_apply-Applied table m elapsed n (result (ok _, d)) h k =
      timed-Applied table m elapsed n _ (
        lifted-Attains E C Q Db T inert L K q _ (on_db (migrated q.effect table m) n) execute _ (
          bound-Attains E C Q Db T L K q (update_text table) (number elapsed)
            (number m.version ∷ []) d (on_db (migrated q.effect table m) n) (table, inr (inl refl))
            h k))

  -- On a connection that stands for a state of nested transactions, with nothing in its cache but what
  -- was prepared, and where the engine runs the texts as `QueryLaws` states, `apply` of a plain
  -- migration with a transaction, where it succeeds, has the effect of its text, of its row and of its
  -- time; where it fails, a rollback has failed, or the database is as it was, or it has the row of a
  -- failure and nothing else, or everything but the time.
  pub apply-Applied :
      (table_name : Text) (table : SqliteIdentifierPath) (m : Migration) (elapsed : ℤ)
      (c : TursoConnection E C) (n : Nested Db)
      → parse_path table_name ≡ ok table
      → m.no_tx ≡ false
      → q.Plain m.sql
      → Refines E C Q Db T c n
      → Held E C L c
      → Applied table m elapsed n (apply E C Q K table_name m elapsed c)
  unfolding apply
  apply-Applied table_name table m elapsed c n named tx p h k =
      rw (named, tx)
        (finish_apply-Applied table m elapsed n
          (run_body E C Q K false (execute_step E C Q K table m) c)
          (run_body-Whole E C Q Db T inert L K q (migrated q.effect table m) n
            (execute_step E C Q K table m) c
            (λ d r held. execute_step-Steps E C Q Db T inert L K q table m d (begun n) p r held) h
            k)
          (run_body-Held E C Q Db T inert L K q (execute_step E C Q K table m) c
            (execute_step-Held E C Q Db T inert L K q table m) k))

  finish_revert-Attains :
      (f : Db → Db) (n : Nested Db) (out : Ended E C Q K)
      → Whole E C Q Db T inert L K q f n out
      → Attains E C Q Db T (on_db f n) n (finish_revert E C Q K out)
  finish_revert-Attains f n (left_by e d) h = h
  finish_revert-Attains f n (result out) h = h

  -- On a connection that stands for a state of nested transactions, with nothing in its cache but what
  -- was prepared, and where the engine runs the texts as `QueryLaws` states, `revert` of a plain
  -- migration with a transaction, where it succeeds, has the effect of its text and of the removal of
  -- its row; where it fails, a rollback has failed, or the database is as it was.
  pub revert-Attains :
      (table_name : Text) (table : SqliteIdentifierPath) (m : Migration) (c : TursoConnection E C)
      (n : Nested Db)
      → parse_path table_name ≡ ok table
      → m.no_tx ≡ false
      → q.Plain m.sql
      → Refines E C Q Db T c n
      → Held E C L c
      → Attains E C Q Db T (on_db (reverted q.effect table m) n) n (revert E C Q K table_name m c)
  unfolding revert
  revert-Attains table_name table m c n named tx p h k =
      rw (named, tx)
        (finish_revert-Attains (reverted q.effect table m) n
          (run_body E C Q K false (revert_step E C Q K table m) c)
          (run_body-Whole E C Q Db T inert L K q (reverted q.effect table m) n
            (revert_step E C Q K table m) c
            (λ d r held. revert_step-Steps E C Q Db T inert L K q table m d (begun n) p r held) h
            k))
