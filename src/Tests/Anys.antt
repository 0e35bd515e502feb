-- ===== src/Tests/Anys.antt =====
-- The theorems on the Any driver, over the toy engine and conversions that keep what they are given.
use sqlx_turso.Base.{ok, ℕ, ◌≡◌, false, none}
use sqlx_turso.Text.{Text, codes}
use sqlx_turso.Statement.{TursoStatement}
use sqlx_turso.Connection.{TursoConnection, new}
use sqlx_turso.Row.{TursoRow}
use sqlx_turso.Arguments.{TursoArguments}
use sqlx_turso.Executor.Fetch.Optional.{Describe, fetch_optional}
use sqlx_turso.Any.Backend.{
  AnyCrate, and_try, found_any, any_fetch_optional, any_fetch_optional-fetch_optional,
}
use sqlx_turso.Tests.Toy.{toy, toy_sql, no_cache, toy_start}

abbrev same : AnyCrate toy
same = record {
  AnyRow = TursoRow ℕ;
  AnyArguments = TursoArguments ℕ;
  AnyStatement = TursoStatement Text;
  AnyDescribe = Describe;
  map_from = λ row names. ok row;
  convert_into = λ arguments. ok arguments;
  try_from_statement = λ statement names. ok statement;
  try_into_any = λ d. ok d;
}

abbrev fresh_connection : TursoConnection toy no_cache
fresh_connection = new toy no_cache 10 toy_start

any_fetch_optional-fetch_optional_example :
    any_fetch_optional toy same no_cache toy_sql (codes "SELECT id") false none fresh_connection
    ≡ and_try
        (found_any toy same)
        (fetch_optional toy no_cache toy_sql (codes "SELECT id") false (ok none) fresh_connection)
any_fetch_optional-fetch_optional_example =
    any_fetch_optional-fetch_optional toy same no_cache toy_sql (codes "SELECT id") false none
      fresh_connection
