-- ===== src/Options/Url.antt =====
-- crates/sqlx-turso-core/src/options.rs: options from a connection URL. The percent and form codecs of
-- the `url` crates are parameters.
pub mod FeatureNames
pub mod Write
pub mod Pairs
pub mod RoundTrip
pub mod Build
pub mod Crate
pub mod Whole
use sqlx_turso.Base.{
  if◌then◌else◌, is_empty, Result, ok, err, ◌>>=◌, ok_or, ℕ, ◌+◌, ◌*◌, ◌^◌, true, false, ◌||◌,
  Option, none, some, List, [], ◌∷◌,
}
use sqlx_turso.Text.{
  Text, codes, text_eq, strip_prefix, split, split_once_onto, parse_unsigned, eq_ignore_ascii_case,
}
use sqlx_turso.Error.{
  bad_scheme, invalid_utf8, unknown_value, unknown_parameter, bad_number, incomplete_encryption,
  missing_remote_url, Error, configuration, unsupported_autovacuum,
}
use sqlx_turso.Options.Features.{parse_experimental_feature}
use sqlx_turso.Options.Settings.{
  new_encryption, TursoSyncOptions, new_sync, default_sync, with_auth_token, with_client_name,
  with_long_poll_timeout, with_bootstrap_if_empty, parse_bool,
}
use sqlx_turso.Options.{
  TursoConnectOptions, default, filename, in_memory, read_only, create_if_missing, shared_cache,
  vfs, experimental_feature, pragma, mvcc, normalized_pragma_value,
}

-- `percent_decode_str(..).decode_utf8()` and `form_urlencoded::parse`.
pub record UrlCodec : Type 0 where
  pub percent_decode : Text → Option Text
  pub form_parse : Text → List (Text × Text)

-- The variables of the loop of `apply_query_params`, and the counter of the in-memory databases.
pub record Params (Io Log : Type 0) : Type 0 where
  pub options : TursoConnectOptions Io Log
  pub encryption_cipher : Option Text
  pub encryption_hexkey : Option Text
  pub sync : Option TursoSyncOptions
  pub seqno : ℕ

abbrev unwrap_or_default : Option TursoSyncOptions → TursoSyncOptions
unwrap_or_default none = default_sync
unwrap_or_default (some s) = s

module _ {Io Log : Type 0} where
  abbrev on_options :
      (TursoConnectOptions Io Log → TursoConnectOptions Io Log)
      → Params Io Log
      → Result (Params Io Log) Error
  on_options f p = ok (record p { options = f p.options })

  abbrev on_sync :
      (TursoSyncOptions → TursoSyncOptions) → Params Io Log → Result (Params Io Log) Error
  on_sync f p = ok (record p { sync = some (f (unwrap_or_default p.sync)) })

  unfoldable pub apply_mode : Text → Params Io Log → Result (Params Io Log) Error
  unfolding read_only create_if_missing in_memory
  apply_mode value p =
      if text_eq value (codes "ro")
      then on_options (read_only true) p
      else if text_eq value (codes "rw")
      then ok p
      else if text_eq value (codes "rwc")
      then on_options (create_if_missing true) p
      else if text_eq value (codes "memory")
      then ok (record p { options = in_memory p.seqno true p.options; seqno = p.seqno + 1 })
      else err (configuration (unknown_value value (codes "mode")))

  unfoldable pub apply_cache : Text → Params Io Log → Result (Params Io Log) Error
  unfolding shared_cache
  apply_cache value p =
      if text_eq value (codes "private")
      then on_options (shared_cache false) p
      else if text_eq value (codes "shared")
      then on_options (shared_cache true) p
      else err (configuration (unknown_value value (codes "cache")))

  unfoldable pub apply_immutable : Text → Params Io Log → Result (Params Io Log) Error
  apply_immutable value p =
      if text_eq value (codes "true") || text_eq value (codes "1")
      then on_options (λ o. record o { immutable = true }) p
      else if text_eq value (codes "false") || text_eq value (codes "0")
      then on_options (λ o. record o { immutable = false }) p
      else err (configuration (unknown_value value (codes "immutable")))

  unfoldable apply_journal_mode : Text → Params Io Log → Result (Params Io Log) Error
  unfolding mvcc pragma
  apply_journal_mode value p =
      if eq_ignore_ascii_case (normalized_pragma_value value) (codes "mvcc")
      then on_options (mvcc true) p
      else on_options (pragma (codes "journal_mode") (some value)) p

  -- The loop over the names of the features.
  unfoldable pub apply_features : List Text → Params Io Log → Result (Params Io Log) Error
  unfolding experimental_feature parse_experimental_feature
  apply_features [] p = ok p
  apply_features (name ∷ names) p = if is_empty name then apply_features names p else do
    feature ← parse_experimental_feature name
    apply_features names (record p { options = experimental_feature feature true p.options })

  unfoldable pub apply_timeout : Text → Params Io Log → Result (Params Io Log) Error
  unfolding parse_unsigned
  apply_timeout value p = do
    millis ← ok_or (configuration (bad_number value)) (parse_unsigned (2 ^ 64) value)
    on_sync (with_long_poll_timeout (millis * 10 ^ 6)) p

  -- The `match` on one key.
  unfoldable pub apply_pair : Text → Text → Params Io Log → Result (Params Io Log) Error
  unfolding apply_mode apply_cache apply_immutable vfs apply_journal_mode apply_features
      apply_timeout parse_bool unsupported_autovacuum
  apply_pair key value p =
      if text_eq key (codes "mode")
      then apply_mode value p
      else if text_eq key (codes "cache")
      then apply_cache value p
      else if text_eq key (codes "immutable")
      then apply_immutable value p
      else if text_eq key (codes "vfs")
      then on_options (vfs value) p
      else if text_eq key (codes "encryption_cipher")
      then ok (record p { encryption_cipher = some value })
      else if text_eq key (codes "encryption_hexkey")
      then ok (record p { encryption_hexkey = some value })
      else if text_eq key (codes "journal_mode")
      then apply_journal_mode value p
      else if text_eq key (codes "auto_vacuum")
      then err unsupported_autovacuum
      else if text_eq key (codes "experimental")
      then apply_features (split b',' value) p
      else if text_eq key (codes "sync_remote_url")
      then ok (record p { sync = some (new_sync value) })
      else if text_eq key (codes "sync_auth_token")
      then on_sync (with_auth_token value) p
      else if text_eq key (codes "sync_client_name")
      then on_sync (with_client_name value) p
      else if text_eq key (codes "sync_long_poll_timeout_ms")
      then apply_timeout value p
      else if text_eq key (codes "sync_bootstrap_if_empty")
      then (do
        b ← parse_bool (codes "sync_bootstrap_if_empty") value
        on_sync (with_bootstrap_if_empty b) p)
      else err (configuration (unknown_parameter key))

  unfoldable pub apply_pairs : List (Text × Text) → Params Io Log → Result (Params Io Log) Error
  unfolding apply_pair
  apply_pairs [] p = ok p
  apply_pairs ((key, value) ∷ pairs) p = do q ← apply_pair key value p; apply_pairs pairs q

  -- The `match` behind the loop.
  unfoldable pub finish_encryption :
      Option Text
      → Option Text
      → TursoConnectOptions Io Log
      → Result (TursoConnectOptions Io Log) Error
  unfolding new_encryption
  finish_encryption (some cipher) (some hexkey) o = do
    encryption ← new_encryption cipher hexkey
    ok (record o { encryption = some encryption })
  finish_encryption none none o = ok o
  finish_encryption _ _ o = err (configuration incomplete_encryption)

  unfoldable pub finish_sync :
      Option TursoSyncOptions
      → TursoConnectOptions Io Log
      → Result (TursoConnectOptions Io Log) Error
  finish_sync none o = ok o
  finish_sync (some s) o =
      if is_empty s.remote_url
      then err (configuration missing_remote_url)
      else ok (record o { sync = some s })

  -- The start of the loop; `seqno` is the counter of the in-memory databases.
  abbrev pub start_params : ℕ → TursoConnectOptions Io Log → Params Io Log
  start_params seqno o = record {
    options = o;
    encryption_cipher = elim (o.encryption) [ none ↦ none | some e ↦ some e.cipher ];
    encryption_hexkey = elim (o.encryption) [ none ↦ none | some e ↦ some e.hexkey ];
    sync = o.sync;
    seqno = seqno;
  }

  -- `apply_query_params`, on the pairs that the form codec reads.
  unfoldable pub apply_query_pairs :
      List (Text × Text)
      → ℕ
      → TursoConnectOptions Io Log
      → Result (TursoConnectOptions Io Log) Error
  unfolding apply_pairs finish_encryption finish_sync
  apply_query_pairs pairs seqno o = do
    p ← apply_pairs pairs (start_params seqno o)
    o1 ← finish_encryption p.encryption_cipher p.encryption_hexkey p.options
    finish_sync p.sync o1

  -- The target of `from_db_and_params`.
  unfoldable pub with_database :
      UrlCodec → Text → ℕ → TursoConnectOptions Io Log → Result (TursoConnectOptions Io Log) Error
  unfolding filename in_memory
  with_database codec database seqno o =
      if is_empty database
      then ok (filename [] o)
      else if text_eq database (codes ":memory:")
      then ok (in_memory seqno true o)
      else do
        decoded ← ok_or (configuration invalid_utf8) (codec.percent_decode database)
        ok (filename decoded o)

  -- `from_db_and_params`, where the counter stands at `seqno`.
  unfoldable pub from_db_and_params :
      UrlCodec → Log → ℕ → Text → Option Text → Result (TursoConnectOptions Io Log) Error
  unfolding default with_database apply_query_pairs
  from_db_and_params codec log seqno database params = do
    o ← with_database codec database (seqno + 1) (default log seqno)
    elim params [
      | none ↦ ok o
      | some text ↦ apply_query_pairs (codec.form_parse text) (seqno + 2) o
    ]

  -- `from_str`
  unfoldable pub from_str : UrlCodec → Log → ℕ → Text → Result (TursoConnectOptions Io Log) Error
  unfolding from_db_and_params strip_prefix split_once_onto
  from_str codec log seqno url = do
    rest ← ok_or (configuration bad_scheme) (elim (strip_prefix (codes "turso://") url) [
      | some rest ↦ some rest
      | none ↦ strip_prefix (codes "turso:") url
    ])
    let (database, params) = split_once_onto b'?' [] rest
    from_db_and_params codec log seqno database params
