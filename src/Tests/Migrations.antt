-- ===== src/Tests/Migrations.antt =====
-- Migrations over the toy engine, and a database dropped from a file system that is a test of names.
use sqlx_turso.Base.{
  if◌then◌else◌, if_elim, All, Result, ok, err, pos, ℕ, ◌≡◌, refl, Bool, false, some, [], ◌∷◌,
}
use sqlx_turso.Text.{Text, codes, text_eq}
use sqlx_turso.Text.Laws.{text_eq_refl}
use sqlx_turso.Connection.{TursoConnection, new}
use sqlx_turso.Options.{TursoConnectOptions, default, filename}
use sqlx_turso.Options.Url.{UrlCodec, from_str}
use sqlx_turso.Migrate.Files.{
  FileSystem, IoError, not_found, known_database_files, drop_database, database_exists,
}
use sqlx_turso.Migrate.Files.Removal.{Removes, drop_database-gone}
use sqlx_turso.Migrate.Runs.{Migration, apply, revert}
use sqlx_turso.Migrate.Runs.Depth.{migration-depth}
use sqlx_turso.Tests.Writer.{to_the_end}
use sqlx_turso.Tests.Toy.{toy, toy_sql, no_cache, toy_start}

abbrev opened : TursoConnection toy no_cache
opened = new toy no_cache 10 toy_start

abbrev first_migration : Migration
first_migration = record {
  version = pos 1;
  description = codes "init";
  sql = codes "CREATE TABLE t (a)";
  checksum = 7 ∷ [];
  no_tx = false;
}

migration-depth_example :
    ((apply toy no_cache toy_sql
        (to_the_end toy)
        (codes "main.t")
        first_migration
        (pos 5)
        opened).1.transaction_state.depth
      ≡ opened.transaction_state.depth)
    × ((revert toy no_cache toy_sql
          (to_the_end toy)
          (codes "main.t")
          first_migration
          opened).1.transaction_state.depth
        ≡ opened.transaction_state.depth)
migration-depth_example =
    migration-depth toy no_cache toy_sql (to_the_end toy) (codes "main.t") first_migration (pos 5)
      opened

abbrev remove_name : Text → (Text → Bool) → Result (Unit {0}) IoError × (Text → Bool)
remove_name f s = (if s f then ok tt else err not_found, λ g. if text_eq f g then false else s g)

abbrev names_only : FileSystem
names_only = record { State = Text → Bool; exists = λ f s. s f; remove_file = remove_name }

removed_name : (f : Text) (s : Text → Bool) → (remove_name f s).1 f ≡ false
removed_name f s = rw (text_eq_refl f) refl

names_only-Removes : Removes names_only
names_only-Removes = record {
  removed = λ f s _. removed_name f s;
  absent = λ f s _. removed_name f s;
  keeps = λ f g s h. if_elim (λ (b : Bool). b ≡ false) (text_eq f g) (λ _. refl) (λ _. h);
}

abbrev plain_codec : UrlCodec
plain_codec = record { percent_decode = λ t. some t; form_parse = λ _. [] }

abbrev one_file : Text → Bool
one_file f = text_eq f (codes "a.db")

abbrev after_drop : Text → Bool
after_drop = (drop_database names_only ℕ ℕ plain_codec 0 (codes "turso://a.db") one_file).1

abbrev parsed_options : TursoConnectOptions ℕ ℕ
parsed_options = filename (codes "a.db") (default 0 0)

drop_database-gone_example :
    (database_exists names_only ℕ ℕ plain_codec 0 (codes "turso://a.db") after_drop ≡ ok false)
    × All (λ f. after_drop f ≡ false) (known_database_files (codes "a.db"))
unfolding from_str filename drop_database text_eq
drop_database-gone_example =
    drop_database-gone names_only names_only-Removes ℕ ℕ plain_codec 0 (codes "turso://a.db")
      (codes "a.db") parsed_options one_file after_drop refl refl refl
