-- ===== src/Options.antt =====
-- crates/sqlx-turso-core/src/options.rs: the options of a connection, their setters and defaults.
-- A duration is its number of nanoseconds, a path is its text.
pub mod Features
pub mod Settings
pub mod Url
pub mod Pragmas
pub mod Encryption
pub mod Setters
use sqlx_turso.Base.{
  ◌==◌, if◌then◌else◌, is_empty, ℕ, ◌*◌, ◌^◌, Bool, true, false, ◌&&◌, ◌||◌, Option, none, some,
  List, [], ◌∷◌, ◌++◌,
}
use sqlx_turso.Text.{Text, codes, text_eq, eq_ignore_ascii_case}
use sqlx_turso.Text.Decimal.{show_nat}
use sqlx_turso.Options.Features.{
  TursoExperimentalFeature, TursoExperimentalFeatures, set, no_features,
}
use sqlx_turso.Options.Settings.{
  TursoDatabaseTarget, memory, file, TursoOpenMode, read_write_mode, TursoCacheMode, private,
  shared, from_read_only, from_create_if_missing, from_shared, TursoEncryptionOptions,
  TursoSyncOptions,
}

-- Over the custom IO backends and the log settings of `sqlx_core`. `memory_state` is the identity
-- of the shared cell that the in-memory databases of these options are kept in.
pub record TursoConnectOptions (Io Log : Type 0) : Type 0 where
  pub target : TursoDatabaseTarget
  pub open_mode : TursoOpenMode
  pub cache_mode : TursoCacheMode
  pub immutable : Bool
  pub busy_timeout : ℕ
  pub statement_cache_capacity : ℕ
  pub vfs : Option Text
  pub custom_io : Option Io
  pub encryption : Option TursoEncryptionOptions
  pub sync : Option TursoSyncOptions
  pub experimental_features : TursoExperimentalFeatures
  pub pragmas : List (Text × Option Text)
  pub log_settings : Log
  pub memory_state : ℕ

-- `new_memory_target`, where the counter stands at `seqno`.
abbrev new_memory_target : ℕ → TursoDatabaseTarget
new_memory_target seqno = memory (codes "sqlx-turso-in-memory-" ++ show_nat seqno)

abbrev pub is_memory : TursoDatabaseTarget → Bool
is_memory (memory _) = true
is_memory (file _) = false

abbrev pub default_pragmas : List (Text × Option Text)
default_pragmas =
    (codes "key", none)
    ∷ (codes "cipher_plaintext_header_size", none)
    ∷ (codes "cipher_salt", none)
    ∷ (codes "kdf_iter", none)
    ∷ (codes "cipher_kdf_algorithm", none)
    ∷ (codes "cipher_use_hmac", none)
    ∷ (codes "cipher_compatibility", none)
    ∷ (codes "cipher_page_size", none)
    ∷ (codes "cipher_hmac_algorithm", none)
    ∷ (codes "page_size", none)
    ∷ (codes "locking_mode", none)
    ∷ (codes "auto_vacuum", none)
    ∷ (codes "journal_mode", none)
    ∷ (codes "foreign_keys", some (codes "ON"))
    ∷ (codes "synchronous", none)
    ∷ (codes "analysis_limit", none)
    ∷ []

-- `pragma` on the list: the value of the first entry of that name is replaced, else one is pushed.
unfoldable pub set_pragma :
    Text → Option Text → List (Text × Option Text) → List (Text × Option Text)
set_pragma key value [] = (key, value) ∷ []
set_pragma key value ((name, old) ∷ rest) =
    if text_eq name key then (name, value) ∷ rest else (name, old) ∷ set_pragma key value rest

-- `find` by the name
unfoldable pub find_pragma : Text → List (Text × Option Text) → Option (Text × Option Text)
find_pragma key [] = none
find_pragma key ((name, value) ∷ rest) =
    if text_eq name key then some (name, value) else find_pragma key rest

abbrev is_quote : ℕ → Bool
is_quote c = c == b'\'' || c == b'"'

unfoldable pub trim_start_quotes : Text → Text
trim_start_quotes [] = []
trim_start_quotes (c ∷ cs) = if is_quote c then trim_start_quotes cs else c ∷ cs

unfoldable pub trim_end_quotes : Text → Text
trim_end_quotes [] = []
trim_end_quotes (c ∷ cs) =
    let rest = trim_end_quotes cs in if is_empty rest && is_quote c then [] else c ∷ rest

-- `normalized_pragma_value`: `trim_matches` of both quotes
abbrev pub normalized_pragma_value : Text → Text
normalized_pragma_value value = trim_end_quotes (trim_start_quotes value)

-- What `get_mvcc` asks of the pragma that it finds.
unfoldable pub is_mvcc : Option (Text × Option Text) → Bool
unfolding trim_start_quotes trim_end_quotes eq_ignore_ascii_case
is_mvcc none = false
is_mvcc (some (name, none)) = false
is_mvcc (some (name, some value)) =
    eq_ignore_ascii_case (normalized_pragma_value value) (codes "mvcc")

abbrev default_busy_timeout : ℕ
default_busy_timeout = 5 * 10 ^ 9

abbrev default_statement_cache_capacity : ℕ
default_statement_cache_capacity = 100

module _ {Io Log : Type 0} where
  -- `TursoConnectOptions::default`, where the counter stands at `seqno`; the shared cell is new.
  unfoldable pub default : Log → ℕ → TursoConnectOptions Io Log
  default log seqno = record {
    target = new_memory_target seqno;
    open_mode = read_write_mode;
    cache_mode = shared;
    immutable = false;
    busy_timeout = default_busy_timeout;
    statement_cache_capacity = default_statement_cache_capacity;
    vfs = none;
    custom_io = none;
    encryption = none;
    sync = none;
    experimental_features = no_features;
    pragmas = default_pragmas;
    log_settings = log;
    memory_state = seqno;
  }

  unfoldable pub filename : Text → TursoConnectOptions Io Log → TursoConnectOptions Io Log
  filename path o = record o { target = file path; cache_mode = private }

  -- `in_memory`, where the counter stands at `seqno`; the caller advances it if the flag is set.
  unfoldable pub in_memory : ℕ → Bool → TursoConnectOptions Io Log → TursoConnectOptions Io Log
  in_memory seqno true o = record o {
    target = new_memory_target seqno;
    cache_mode = shared;
    memory_state = seqno;
  }
  in_memory seqno false o =
      if is_memory o.target
      then record o { target = file (codes ":memory:"); cache_mode = private }
      else o

  unfoldable pub read_only : Bool → TursoConnectOptions Io Log → TursoConnectOptions Io Log
  unfolding from_read_only
  read_only b o = record o { open_mode = from_read_only b o.open_mode }

  unfoldable pub create_if_missing : Bool → TursoConnectOptions Io Log → TursoConnectOptions Io Log
  unfolding from_create_if_missing
  create_if_missing b o = record o { open_mode = from_create_if_missing b o.open_mode }

  unfoldable pub shared_cache : Bool → TursoConnectOptions Io Log → TursoConnectOptions Io Log
  shared_cache b o = record o { cache_mode = from_shared b }

  unfoldable pub vfs : Text → TursoConnectOptions Io Log → TursoConnectOptions Io Log
  vfs name o = record o { vfs = some name; custom_io = none }

  unfoldable pub custom_io : Io → TursoConnectOptions Io Log → TursoConnectOptions Io Log
  custom_io io o = record o { custom_io = some io; vfs = none }

  unfoldable pub experimental_feature :
      TursoExperimentalFeature → Bool → TursoConnectOptions Io Log → TursoConnectOptions Io Log
  unfolding set
  experimental_feature f b o = record o { experimental_features = set f b o.experimental_features }

  unfoldable pub pragma :
      Text → Option Text → TursoConnectOptions Io Log → TursoConnectOptions Io Log
  unfolding set_pragma
  pragma key value o = record o { pragmas = set_pragma key value o.pragmas }

  unfoldable pub mvcc : Bool → TursoConnectOptions Io Log → TursoConnectOptions Io Log
  unfolding pragma
  mvcc true = pragma (codes "journal_mode") (some (codes "'mvcc'"))
  mvcc false = pragma (codes "journal_mode") none

  unfoldable pub get_mvcc : TursoConnectOptions Io Log → Bool
  unfolding find_pragma is_mvcc
  get_mvcc o = is_mvcc (find_pragma (codes "journal_mode") o.pragmas)
