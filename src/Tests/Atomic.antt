-- ===== src/Tests/Atomic.antt =====
-- Migrations in transactions of the toy engine whose queries write.
use sqlx_turso.Base.{ok, pos, ℕ, ◌≡◌, refl, false, [], ◌∷◌}
use sqlx_turso.Text.{codes}
use sqlx_turso.Connection.{TursoConnection, new}
use sqlx_turso.Transaction.Refinement.{Nested}
use sqlx_turso.Transaction.Refinement.History.{new-Refines}
use sqlx_turso.Transaction.Refinement.Failing.{Attains}
use sqlx_turso.Executor.Fetch.Owned.{Held}
use sqlx_turso.Migrate.Identifier.{parse_path}
use sqlx_turso.Migrate.Runs.{Migration, apply, revert}
use sqlx_turso.Migrate.Runs.Laws.{on_db}
use sqlx_turso.Migrate.Runs.Atomic.{reverted}
use sqlx_turso.Migrate.Runs.Applied.{Applied, apply-Applied, revert-Attains}
use sqlx_turso.Tests.Toy.{toy_sql, toy_start}
use sqlx_turso.Tests.Caches.{listed, listed_laws}
use sqlx_turso.Tests.Writer.{to_the_end, writer, writer_laws, writer_inert, added, writer_queries}

abbrev opened : TursoConnection writer listed
opened = new writer listed 10 toy_start

opened-Held : Held writer listed listed_laws opened
unfolding new
opened-Held q st k = absurd (listed_laws.empty_law 10 q st k)

abbrev at_start : Nested ℕ
at_start = record { current = 5; marks = [] }

abbrev migration : Migration
migration = record {
  version = pos 1;
  description = codes "init";
  sql = codes "CREATE TABLE t (a)";
  checksum = 7 ∷ [];
  no_tx = false;
}

table_t : parse_path (codes "t") ≡ ok (codes "t" ∷ [])
unfolding parse_path
table_t = refl

apply-Applied_example :
    Applied writer listed toy_sql ℕ writer_laws writer_inert listed_laws
      (to_the_end writer)
      writer_queries
      (codes "t" ∷ [])
      migration
      (pos 5)
      at_start
      (apply writer listed toy_sql (to_the_end writer) (codes "t") migration (pos 5) opened)
apply-Applied_example =
    apply-Applied writer listed toy_sql ℕ writer_laws writer_inert listed_laws (to_the_end writer)
      writer_queries (codes "t") (codes "t" ∷ []) migration (pos 5) opened at_start table_t refl tt
      (new-Refines writer listed toy_sql ℕ writer_laws 10 toy_start) opened-Held

revert-Attains_example :
    Attains writer listed toy_sql ℕ writer_laws
      (on_db (reverted added (codes "t" ∷ []) migration) at_start)
      at_start
      (revert writer listed toy_sql (to_the_end writer) (codes "t") migration opened)
revert-Attains_example =
    revert-Attains writer listed toy_sql ℕ writer_laws writer_inert listed_laws (to_the_end writer)
      writer_queries (codes "t") (codes "t" ∷ []) migration opened at_start table_t refl tt
      (new-Refines writer listed toy_sql ℕ writer_laws 10 toy_start) opened-Held
