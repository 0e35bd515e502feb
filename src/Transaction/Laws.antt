-- ===== src/Transaction/Laws.antt =====
-- What a connection relies on in the engine: the documented meaning of the ANSI transaction
-- statements, over marks. `saved s l` is the database that a rollback to the mark of level l restores:
-- level 0 is the transaction, level l the savepoint l.
use sqlx_turso.Base.{ok, err, ℕ, suc, ◌<◌, ◌≡◌, false, Option, some}
use sqlx_turso.Text.{Text}
use sqlx_turso.Engine.{Engine, AnsiSql}
use sqlx_turso.Connection.{rollback_error_is_inactive_transaction}
use sqlx_turso.Error.{EngineError}

pub record Transactional (E : Engine) (Q : AnsiSql) (Db : Type 0) : Type 1 where
  pub db : E.State → Db
  pub saved : E.State → ℕ → Option Db
  -- The texts that open level l.
  pub Opens : ℕ → Text → Type 0
  pub opens_ansi : (l : ℕ) → Opens l (Q.begin_sql l)
  -- Opening level l keeps the database and the marks below, and marks the database as it is.
  pub begin_law :
      (l : ℕ) (sql : Text) (s : E.State)
      → Opens l sql
      → (E.execute sql s).0 ≡ ok tt
      → (db (E.execute sql s).1 ≡ db s)
        × (saved (E.execute sql s).1 l ≡ some (db s))
        × ((j : ℕ) → j < l → saved (E.execute sql s).1 j ≡ saved s j)
  -- Committing level l keeps the database and the marks below.
  pub commit_law :
      (l : ℕ) (s : E.State)
      → (E.execute (Q.commit_sql (suc l)) s).0 ≡ ok tt
      → (db (E.execute (Q.commit_sql (suc l)) s).1 ≡ db s)
        × ((j : ℕ) → j < l → saved (E.execute (Q.commit_sql (suc l)) s).1 j ≡ saved s j)
  -- Rolling back level l restores what its mark holds and keeps the marks below.
  pub rollback_law :
      (l : ℕ) (s : E.State) (x : Db)
      → saved s l ≡ some x
      → (E.execute (Q.rollback_sql (suc l)) s).0 ≡ ok tt
      → (db (E.execute (Q.rollback_sql (suc l)) s).1 ≡ x)
        × ((j : ℕ) → j < l → saved (E.execute (Q.rollback_sql (suc l)) s).1 j ≡ saved s j)
  -- No transaction is reported missing while level 0 is marked.
  pub inactive_law :
      (s : E.State) {x : Db} {e : EngineError}
      → saved s 0 ≡ some x
      → (E.execute (Q.rollback_sql 1) s).0 ≡ err e
      → rollback_error_is_inactive_transaction E e ≡ false
