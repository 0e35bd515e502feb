-- ===== src/Tests/Queries.antt =====
-- The executor, rows and values over the toy engine.
use sqlx_turso.Base.{
  ok, err, pos, ℕ, ◌+◌, ◌≡◌, refl, ◌≢◌, ◌↔◌, true, none, List, [], ◌∷◌, ◌++◌, map,
}
use sqlx_turso.Text.{
  Text, codes, text_eq, strip_prefix, contains, is_whitespace, to_ascii_lowercase,
}
use sqlx_turso.Error.{
  EngineError, constraint, other, turso_error_code, kind, sqlx_error_kind, out_of_range,
  constraint_message_contains,
}
use sqlx_turso.Map.{lookup}
use sqlx_turso.Column.{TursoColumn, turso_columns, collect_column_names}
use sqlx_turso.Column.Names.{last_named, lookup-collect_column_names}
use sqlx_turso.Engine.{EngineValue}
use sqlx_turso.Value.{integer, TursoValue, null_value, integer_value, with_type_info}
use sqlx_turso.Value.Integers.{i8, fits, decode_integer, decode_integer_iff}
use sqlx_turso.Arguments.{TursoArguments, Encoder, add, add-added}
use sqlx_turso.Executor.Inspect.{inspect_sql, scan_start}
use sqlx_turso.Executor.Inspect.Lexical.{
  Token, word, semicolon, placeholder, Lexes, plain, separator, bound, done, judge,
}
use sqlx_turso.Executor.Inspect.Judged.{inspect_sql-judge}
use sqlx_turso.Executor.Fetch.{RowsState, rows_state, row_values}
use sqlx_turso.Executor.Fetch.Optional.{optional_row, first_right, optional_row-first}
use sqlx_turso.Executor.Fetch.Drain.{drain, no_more, one_more, items_of, drain-items_of}
use sqlx_turso.Tests.Toy.{toy, toy_start}

abbrev two_statements : Text
two_statements = codes "x;:n"

abbrev two_tokens : List Token
two_tokens = word ∷ semicolon ∷ placeholder b':' (codes "n") ∷ []

two_lexed : Lexes two_statements two_tokens
unfolding is_whitespace
two_lexed =
    plain b'x' (codes ";:n") refl refl refl
      (separator (codes ":n") (bound b':' (codes "n") [] refl (refl, tt) refl done))

inspect_sql-judge_example : inspect_sql two_statements ≡ judge scan_start two_tokens
inspect_sql-judge_example = inspect_sql-judge two_lexed

abbrev text_of : EngineError → Text
text_of _ = codes "UNIQUE constraint failed"

is_unique :
    kind (record { code = turso_error_code (constraint []); message = text_of (constraint []) })
    ≢ other
unfolding kind turso_error_code sqlx_error_kind text_eq constraint_message_contains contains
    strip_prefix to_ascii_lowercase
is_unique h = cc

abbrev int_columns : List TursoColumn
int_columns = turso_columns (toy.columns (codes "SELECT id"))

lookup-collect_column_names_example :
    lookup (codes "id") (collect_column_names int_columns)
    ≡ last_named (codes "id") none int_columns
lookup-collect_column_names_example = lookup-collect_column_names (codes "id") int_columns

abbrev flag : EngineValue ℕ
flag = EngineValue.integer (pos 1)

abbrev two_hundred : TursoValue ℕ
two_hundred = integer_value (pos 200)

decode_integer_iff_example :
    (decode_integer i8 two_hundred ≡ ok (pos 200))
    ↔ ((two_hundred.kind ≡ integer (pos 200)) × (fits i8 (pos 200) ≡ true))
decode_integer_iff_example = decode_integer_iff i8 two_hundred (pos 200)

-- An encoder that pushes a value and then fails.
abbrev half_done : Encoder ℕ
half_done buffer = (err out_of_range, buffer ++ integer_value (pos 1) ∷ [])

abbrev one_argument : TursoArguments ℕ
one_argument = record { values = null_value ∷ [] }

add-added_example : add half_done one_argument ≡ (err out_of_range, one_argument)
add-added_example =
    add-added half_done one_argument (err out_of_range) (integer_value (pos 1) ∷ []) refl

abbrev three_rows : RowsState toy
three_rows = record {
  rows = 1 ∷ 2 ∷ 3 ∷ [];
  statement = codes "SELECT id";
  columns = int_columns;
  column_names = collect_column_names int_columns;
  pending_row = none;
}

abbrev id_values : ℕ → List (TursoValue ℕ)
id_values n = integer_value (pos n) ∷ []

drain-items_of_example :
    drain toy (3 + 2) (rows_state three_rows) toy_start
    ≡ (ok (items_of toy three_rows (map id_values (1 ∷ 2 ∷ 3 ∷ [])) toy_start), toy_start)
unfolding row_values with_type_info sqlx_turso.Value.from_turso sqlx_turso.TypeInfo.is_null
    sqlx_turso.Column.columns_from text_eq
drain-items_of_example =
    drain-items_of toy 0 three_rows toy_start toy_start (1 ∷ 2 ∷ 3 ∷ [])
      (map id_values (1 ∷ 2 ∷ 3 ∷ [])) refl
      (one_more refl (one_more refl (one_more refl (no_more {rows' = []} refl))))
      (refl, (refl, (refl, tt)))

optional_row-first_example :
    (optional_row toy 2 (rows_state three_rows) toy_start).0
    ≡ ok (first_right (items_of toy three_rows (map id_values (1 ∷ 2 ∷ 3 ∷ [])) toy_start))
unfolding row_values with_type_info sqlx_turso.Value.from_turso sqlx_turso.TypeInfo.is_null
    sqlx_turso.Column.columns_from text_eq
optional_row-first_example =
    optional_row-first toy 0 three_rows toy_start toy_start (1 ∷ 2 ∷ 3 ∷ [])
      (map id_values (1 ∷ 2 ∷ 3 ∷ [])) refl
      (one_more refl (one_more refl (one_more refl (no_more {rows' = []} refl))))
      (refl, (refl, (refl, tt)))
