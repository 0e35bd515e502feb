-- ===== src/Error.antt =====
-- Error values: `sqlx_core::error::Error` as far as the crates build it, and
-- crates/sqlx-turso-core/src/error.rs. A message is a constructor that carries what its text shows.
use sqlx_turso.Base.{ℕ, Bool, ◌&&◌, if◌then◌else◌}
use sqlx_turso.Text.{Text, codes, text_eq, contains, to_ascii_lowercase}
pub mod Kinds

-- What `Error::Configuration` and the boxed errors hold.
pub data Message : Type 0 where
  unsupported : Text → Message
  autovacuum bad_scheme invalid_utf8 : Message
  unknown_value : Text → Text → Message
  invalid_time unknown_parameter unknown_feature bad_number invalid_identifier driver_install :
      Text → Message
  incomplete_encryption empty_cipher empty_hexkey bad_hexkey missing_remote_url : Message
  out_of_range invalid_datetime real_datetime : Message
  foreign : Text → Message

-- `turso::Error`, by the variants that `turso_error_code` lists, each with its text.
pub data EngineError : Type 0 where
  to_sql_conversion_failure : Text → EngineError
  query_returned_no_rows : EngineError
  conversion_failure busy busy_snapshot interrupt error misuse constraint : Text → EngineError
  readonly database_full not_adb corrupt : Text → EngineError
  io_error : Text → Text → EngineError

-- `TursoDatabaseError`
pub record DatabaseError : Type 0 where
  pub code : Text
  pub message : Text

pub data Error : Type 0 where
  configuration encode decode : Message → Error
  database : DatabaseError → Error
  worker_crashed invalid_save_point_statement row_not_found : Error
  not_found : Text → Error
  io : Text → Error
  column_not_found : Text → Error
  column_index_out_of_bounds : ℕ → ℕ → Error

-- `unsupported_sqlx`, through `TursoAdapterError::unsupported`
unfoldable pub unsupported_sqlx : Text → Error
unsupported_sqlx surface = configuration (unsupported surface)

-- `unsupported_autovacuum`
unfoldable pub unsupported_autovacuum : Error
unsupported_autovacuum = configuration autovacuum

-- `turso_error_code`
unfoldable pub turso_error_code : EngineError → Text
turso_error_code (to_sql_conversion_failure _) = codes "TURSO_TO_SQL_CONVERSION_FAILURE"
turso_error_code query_returned_no_rows = codes "TURSO_QUERY_RETURNED_NO_ROWS"
turso_error_code (conversion_failure _) = codes "TURSO_CONVERSION_FAILURE"
turso_error_code (busy _) = codes "SQLITE_BUSY"
turso_error_code (busy_snapshot _) = codes "SQLITE_BUSY_SNAPSHOT"
turso_error_code (interrupt _) = codes "SQLITE_INTERRUPT"
turso_error_code (error _) = codes "SQLITE_ERROR"
turso_error_code (misuse _) = codes "SQLITE_MISUSE"
turso_error_code (constraint _) = codes "SQLITE_CONSTRAINT"
turso_error_code (readonly _) = codes "SQLITE_READONLY"
turso_error_code (database_full _) = codes "SQLITE_FULL"
turso_error_code (not_adb _) = codes "SQLITE_NOTADB"
turso_error_code (corrupt _) = codes "SQLITE_CORRUPT"
turso_error_code (io_error _ _) = codes "SQLITE_IOERR"

-- `TursoDatabaseError::from_turso`; `display` is the engine's `to_string`.
unfoldable pub from_turso : (EngineError → Text) → EngineError → Error
unfolding turso_error_code
from_turso display e = database (record { code = turso_error_code e; message = display e })

-- `sqlx_core::error::ErrorKind`
pub data ErrorKind : Type 0 where
  unique_violation foreign_key_violation not_null_violation check_violation other : ErrorKind

-- `constraint_message_contains`
unfoldable pub constraint_message_contains : Text → Text → Bool
constraint_message_contains message needle = contains needle (to_ascii_lowercase message)

-- `sqlx_error_kind`
unfoldable pub sqlx_error_kind : Text → Text → ErrorKind
sqlx_error_kind code message =
    let constrained = text_eq code (codes "SQLITE_CONSTRAINT") in
    if constrained && constraint_message_contains message (codes "unique")
    then unique_violation
    else if constrained && constraint_message_contains message (codes "primary")
    then unique_violation
    else if constrained && constraint_message_contains message (codes "foreign")
    then foreign_key_violation
    else if constrained && constraint_message_contains message (codes "not null")
    then not_null_violation
    else if constrained && constraint_message_contains message (codes "check")
    then check_violation
    else other

-- `DatabaseError::kind`
unfoldable pub kind : DatabaseError → ErrorKind
unfolding sqlx_error_kind
kind e = sqlx_error_kind e.code e.message
