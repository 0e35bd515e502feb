-- ===== src/Migrate/Identifier.antt =====
-- crates/sqlx-turso-core/src/migrate.rs: `SqliteIdentifier` and `SqliteIdentifierPath`, the names of
-- tables that migrations put into SQL texts.
pub mod RoundTrip
use sqlx_turso.Base.{
  ◌==◌, if◌then◌else◌, length, is_empty, Result, ok, err, ◌>>=◌, ℤ, ℕ, zero, suc, ◌≡◌, refl, Bool,
  not, ◌||◌, none, some, List, [], ◌∷◌, ◌++◌,
}
use sqlx_turso.Text.{Text, codes, strip_prefix, is_ascii_alphabetic, is_ascii_alphanumeric}
use sqlx_turso.Error.{Message, Error, configuration}

-- `sqlx_core::migrate::MigrateError`, as far as it is built here; `?` wraps an `Error` in `execute`.
pub data MigrateError : Type 0 where
  execute : Error → MigrateError
  execute_migration : Error → ℤ → MigrateError
  create_schemas_not_supported : Text → MigrateError

abbrev pub SqliteIdentifier : Type 0
SqliteIdentifier = Text

abbrev pub is_identifier_start : ℕ → Bool
is_identifier_start ch = ch == b'_' || is_ascii_alphabetic ch

abbrev is_identifier_continue : ℕ → Bool
is_identifier_continue ch = ch == b'_' || is_ascii_alphanumeric ch

abbrev pub invalid_identifier : Text → MigrateError
invalid_identifier value = execute (configuration (Message.invalid_identifier value))

-- The `while let` of `parse_bare_prefix`: what it takes, and what is left.
unfoldable continue_span : Text → Text × Text
continue_span [] = ([], [])
continue_span (c ∷ cs) =
    let more = continue_span cs in
    if is_identifier_continue c then (c ∷ more.0, more.1) else ([], c ∷ cs)

unfoldable pub parse_bare_prefix : Text → Text → Result (SqliteIdentifier × Text) MigrateError
unfolding continue_span
parse_bare_prefix [] original = err (invalid_identifier original)
parse_bare_prefix (first ∷ cs) original =
    if not (is_identifier_start first)
    then err (invalid_identifier original)
    else ok (first ∷ (continue_span cs).0, (continue_span cs).1)

-- The closing quote: an empty identifier is refused.
abbrev pub close_quote : Text → Text → Text → Result (SqliteIdentifier × Text) MigrateError
close_quote original identifier rest =
    if is_empty identifier then err (invalid_identifier original) else ok (identifier, rest)

-- The loop of `parse_quoted_prefix`, behind the characters of `identifier`.
unfoldable pub parse_quoted_onto :
    Text → Text → Text → Result (SqliteIdentifier × Text) MigrateError
parse_quoted_onto original identifier [] = err (invalid_identifier original)
parse_quoted_onto original identifier (ch ∷ []) =
    if ch == b'"' then close_quote original identifier [] else err (invalid_identifier original)
parse_quoted_onto original identifier (ch ∷ next ∷ cs) =
    let doubled = parse_quoted_onto original (identifier ++ b'"' ∷ []) cs in
    let inside = parse_quoted_onto original (identifier ++ ch ∷ []) (next ∷ cs) in
    if ch == b'"'
    then (if next == b'"' then doubled else close_quote original identifier (next ∷ cs))
    else inside

unfoldable pub parse_quoted_prefix : Text → Text → Result (SqliteIdentifier × Text) MigrateError
unfolding parse_quoted_onto
parse_quoted_prefix value original = parse_quoted_onto original [] value

unfoldable pub parse_prefix : Text → Text → Result (SqliteIdentifier × Text) MigrateError
unfolding strip_prefix parse_bare_prefix parse_quoted_prefix
parse_prefix value original = elim (strip_prefix (b'"' ∷ []) value) [
  | some quoted ↦ parse_quoted_prefix quoted original
  | none ↦ parse_bare_prefix value original
]

unfoldable pub parse : Text → Result SqliteIdentifier MigrateError
unfolding parse_prefix
parse value = do
  (identifier, rest) ← parse_prefix value value
  if not (is_empty rest) then err (invalid_identifier value) else ok identifier

unfoldable pub escaped : SqliteIdentifier → Text
escaped [] = []
escaped (c ∷ cs) = if c == b'"' then b'"' ∷ b'"' ∷ escaped cs else c ∷ escaped cs

-- `Display` of an identifier.
unfoldable pub display : SqliteIdentifier → Text
unfolding escaped
display id = b'"' ∷ (escaped id ++ (b'"' ∷ []))

abbrev pub SqliteIdentifierPath : Type 0
SqliteIdentifierPath = List SqliteIdentifier

-- The `while let` of `SqliteIdentifierPath::parse`, from the parts that it has; two rounds are
-- enough, since it returns when it has two parts.
unfoldable pub path_loop :
    ℕ → Text → SqliteIdentifierPath → Text → Result SqliteIdentifierPath MigrateError
path_loop zero value parts rest = err (invalid_identifier value)
path_loop (suc f) value parts rest = elim (strip_prefix (b'.' ∷ []) rest) [
  | none ↦ if not (is_empty rest) then err (invalid_identifier value) else ok parts
  | some next ↦ if length parts == 2 then err (invalid_identifier value) else do
    (part, remaining) ← parse_prefix next value
    path_loop f value (parts ++ part ∷ []) remaining
]

unfoldable pub parse_path : Text → Result SqliteIdentifierPath MigrateError
unfolding path_loop parse_prefix
parse_path value = do (first, rest) ← parse_prefix value value; path_loop 2 value (first ∷ []) rest

-- The second loop of `Display` of a path.
unfoldable pub display_rest : SqliteIdentifierPath → Text
unfolding display
display_rest [] = []
display_rest (part ∷ parts) = b'.' ∷ (display part ++ display_rest parts)

unfoldable pub display_path : SqliteIdentifierPath → Text
unfolding display_rest
display_path [] = []
display_path (first ∷ parts) = display first ++ display_rest parts

bare_test : parse_path (codes "main.users") ≡ ok (codes "main" ∷ codes "users" ∷ [])
unfolding parse_path
bare_test = refl

quoted_test : parse_path (codes "\"a\"\"b\"") ≡ ok (codes "a\"b" ∷ [])
unfolding parse_path
quoted_test = refl

injection_test :
    parse_path (codes "users; DROP TABLE users")
    ≡ err (invalid_identifier (codes "users; DROP TABLE users"))
unfolding parse_path
injection_test = refl
