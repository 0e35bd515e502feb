-- ===== src/Tests/Refusals.antt =====
-- A query with arguments that is refused, over the toy engine.
use sqlx_turso.Base.{err, ℕ, ◌≡◌, refl, true, some, [], ◌∷◌}
use sqlx_turso.Text.{Text, codes, is_whitespace}
use sqlx_turso.Error.{unsupported_sqlx}
use sqlx_turso.Arguments.{TursoArguments}
use sqlx_turso.Connection.{TursoConnection, new, clear_pending_rollback}
use sqlx_turso.Executor.Inspect.Lexical.{word, semicolon, Lexes, plain, separator, done}
use sqlx_turso.Executor.Fetch.{fetch_many_sql}
use sqlx_turso.Executor.Fetch.Refusal.{fetch_many_sql-refused}
use sqlx_turso.Tests.Toy.{toy, toy_sql, no_cache, toy_start}

abbrev batch : Text
batch = codes "x;y"

batch_lexed : Lexes batch (word ∷ semicolon ∷ word ∷ [])
unfolding is_whitespace
batch_lexed =
    plain b'x' (codes ";y") refl refl refl
      (separator (codes "y") (plain b'y' [] refl refl refl done))

abbrev opened : TursoConnection toy no_cache
opened = new toy no_cache 10 toy_start

abbrev no_values : TursoArguments ℕ
no_values = record { values = [] }

fetch_many_sql-refused_example :
    fetch_many_sql toy no_cache toy_sql batch true (some no_values) opened
    ≡ (err (unsupported_sqlx (codes "Turso SQLx batch query arguments")), opened)
unfolding new clear_pending_rollback
fetch_many_sql-refused_example =
    fetch_many_sql-refused toy no_cache toy_sql batch_lexed true no_values opened opened
      (unsupported_sqlx (codes "Turso SQLx batch query arguments")) refl refl
