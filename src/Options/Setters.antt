-- ===== src/Options/Setters.antt =====
-- crates/sqlx-turso-core/src/options.rs: the setters of one field, the getters that test one, and
-- chains of calls of the setters.
pub mod Invariant
pub mod Last
use sqlx_turso.Base.{ℕ, Bool, Option, none, some, List, [], ◌∷◌}
use sqlx_turso.Text.{Text}
use sqlx_turso.Options.Features.{TursoExperimentalFeature}
use sqlx_turso.Options.Settings.{
  memory, file, is_read_only, is_create, is_shared, TursoEncryptionOptions, TursoSyncOptions,
}
use sqlx_turso.Options.{
  TursoConnectOptions, is_memory, filename, in_memory, read_only, create_if_missing, shared_cache,
  vfs, custom_io, experimental_feature, pragma, mvcc,
}

module _ {Io Log : Type 0} where
  unfoldable pub set_immutable : Bool → TursoConnectOptions Io Log → TursoConnectOptions Io Log
  set_immutable b o = record o { immutable = b }

  unfoldable pub set_busy_timeout : ℕ → TursoConnectOptions Io Log → TursoConnectOptions Io Log
  set_busy_timeout timeout o = record o { busy_timeout = timeout }

  unfoldable pub set_statement_cache_capacity :
      ℕ → TursoConnectOptions Io Log → TursoConnectOptions Io Log
  set_statement_cache_capacity capacity o = record o { statement_cache_capacity = capacity }

  unfoldable pub clear_custom_io : TursoConnectOptions Io Log → TursoConnectOptions Io Log
  clear_custom_io o = record o { custom_io = none }

  unfoldable pub encryption_options :
      TursoEncryptionOptions → TursoConnectOptions Io Log → TursoConnectOptions Io Log
  encryption_options e o = record o { encryption = some e }

  unfoldable pub clear_encryption : TursoConnectOptions Io Log → TursoConnectOptions Io Log
  clear_encryption o = record o { encryption = none }

  unfoldable pub with_sync_options :
      TursoSyncOptions → TursoConnectOptions Io Log → TursoConnectOptions Io Log
  with_sync_options s o = record o { sync = some s }

  unfoldable pub clear_sync_options : TursoConnectOptions Io Log → TursoConnectOptions Io Log
  clear_sync_options o = record o { sync = none }

  -- `log_statements` and `log_slow_statements`, by what they do to the log settings.
  unfoldable pub set_log : (Log → Log) → TursoConnectOptions Io Log → TursoConnectOptions Io Log
  set_log f o = record o { log_settings = f o.log_settings }

  -- The getters that test a field.
  unfoldable get_filename : TursoConnectOptions Io Log → Option Text
  get_filename o = elim (o.target) [ memory _ ↦ none | file path ↦ some path ]

  unfoldable is_in_memory : TursoConnectOptions Io Log → Bool
  is_in_memory o = is_memory o.target

  unfoldable get_read_only : TursoConnectOptions Io Log → Bool
  get_read_only o = is_read_only o.open_mode

  unfoldable get_create_if_missing : TursoConnectOptions Io Log → Bool
  get_create_if_missing o = is_create o.open_mode

  unfoldable get_shared_cache : TursoConnectOptions Io Log → Bool
  get_shared_cache o = is_shared o.cache_mode

-- A call of one of the setters. `to_memory` has the reading of the counter.
pub data Setter (Io Log : Type 0) : Type 0 where
  to_file : Text → Setter Io Log
  to_memory : ℕ → Bool → Setter Io Log
  to_read_only to_create_if_missing to_shared_cache to_immutable to_mvcc : Bool → Setter Io Log
  to_busy_timeout to_capacity : ℕ → Setter Io Log
  to_vfs : Text → Setter Io Log
  to_custom_io : Io → Setter Io Log
  to_no_custom_io to_no_encryption to_no_sync : Setter Io Log
  to_encryption : TursoEncryptionOptions → Setter Io Log
  to_sync : TursoSyncOptions → Setter Io Log
  to_feature : TursoExperimentalFeature → Bool → Setter Io Log
  to_pragma : Text → Option Text → Setter Io Log
  to_log : (Log → Log) → Setter Io Log

module _ {Io Log : Type 0} where
  abbrev pub call : Setter Io Log → TursoConnectOptions Io Log → TursoConnectOptions Io Log
  call (to_file path) = filename path
  call (to_memory seqno b) = in_memory seqno b
  call (to_read_only b) = read_only b
  call (to_create_if_missing b) = create_if_missing b
  call (to_shared_cache b) = shared_cache b
  call (to_immutable b) = set_immutable b
  call (to_mvcc b) = mvcc b
  call (to_busy_timeout t) = set_busy_timeout t
  call (to_capacity n) = set_statement_cache_capacity n
  call (to_vfs name) = vfs name
  call (to_custom_io io) = custom_io io
  call to_no_custom_io = clear_custom_io
  call to_no_encryption = clear_encryption
  call to_no_sync = clear_sync_options
  call (to_encryption e) = encryption_options e
  call (to_sync s) = with_sync_options s
  call (to_feature f b) = experimental_feature f b
  call (to_pragma key value) = pragma key value
  call (to_log f) = set_log f

  -- A builder chain, from the first call to the last.
  abbrev pub call_all :
      List (Setter Io Log) → TursoConnectOptions Io Log → TursoConnectOptions Io Log
  call_all [] o = o
  call_all (s ∷ ss) o = call_all ss (call s o)
