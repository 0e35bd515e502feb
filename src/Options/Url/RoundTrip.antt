-- ===== src/Options/Url/RoundTrip.antt =====
-- The URL that is built of options gives these options back.
use sqlx_turso.Base.{
  if◌then◌else◌, is_empty, ok, ℕ, ◌+◌, ◌≡◌, refl, sym, ap, subst, ◌∙◌, false, Option, none, some,
  List, [], ◌++◌,
}
use sqlx_turso.Text.{Text, codes, text_eq}
use sqlx_turso.Options.Settings.{
  file, url_mode, url_value, TursoEncryptionOptions, TursoSyncOptions,
}
use sqlx_turso.Options.Features.{to_query_value}
use sqlx_turso.Options.{TursoConnectOptions, default, filename}
use sqlx_turso.Options.Url.{
  UrlCodec, Params, apply_pairs, finish_encryption, finish_sync, start_params, apply_query_pairs,
  with_database, from_db_and_params,
}
use sqlx_turso.Options.Url.Write.{
  when_some, one_pair, encryption_pairs, feature_pairs, sync_pairs, query_pairs,
}
use sqlx_turso.Options.Url.Pairs.{
  step, IsSync, IsEncryption, cipher_of, hexkey_of, read_mode, read_cache, read_immutable, read_vfs,
  read_encryption, read_features, read_sync,
}

module _ {Io Log : Type 0} where
  -- The options that a URL of a file starts with.
  abbrev of_file : Log → ℕ → Text → TursoConnectOptions Io Log
  of_file log seqno path = filename path (default log seqno)

  -- What a URL keeps of the options `o`: all but the timeout of a busy database, the size of the
  -- cache, the pragmas, the log settings, a custom IO backend and the shared in-memory database.
  abbrev pub kept_by_url : Log → ℕ → TursoConnectOptions Io Log → TursoConnectOptions Io Log
  kept_by_url log seqno o = record (default log seqno) {
    target = o.target;
    open_mode = o.open_mode;
    cache_mode = o.cache_mode;
    immutable = o.immutable;
    vfs = o.vfs;
    encryption = o.encryption;
    sync = o.sync;
    experimental_features = o.experimental_features;
  }

  -- The pairs behind each option's.
  abbrev behind_encryption : TursoConnectOptions Io Log → List (Text × Text)
  behind_encryption o =
      when_some o.sync sync_pairs ++ feature_pairs (to_query_value o.experimental_features)

  abbrev behind_vfs : TursoConnectOptions Io Log → List (Text × Text)
  behind_vfs o = when_some o.encryption encryption_pairs ++ behind_encryption o

  abbrev behind_immutable : TursoConnectOptions Io Log → List (Text × Text)
  behind_immutable o = when_some o.vfs (one_pair (codes "vfs")) ++ behind_vfs o

  abbrev behind_cache : TursoConnectOptions Io Log → List (Text × Text)
  behind_cache o =
      (if o.immutable then one_pair (codes "immutable") (codes "true") else [])
      ++ behind_immutable o

  abbrev pub behind_mode : TursoConnectOptions Io Log → List (Text × Text)
  behind_mode o = one_pair (codes "cache") (url_value o.cache_mode) ++ behind_cache o

  read_pairs :
      (log : Log) (seqno : ℕ) (path : Text) (o : TursoConnectOptions Io Log)
      → o.target ≡ file path
      → IsSync o.sync
      → apply_pairs (query_pairs o) (start_params (seqno + 2) (of_file log seqno path))
        ≡ ok (record {
          options = record (kept_by_url log seqno o) {
            target = file path;
            encryption = none;
            sync = none;
          };
          encryption_cipher = cipher_of o.encryption;
          encryption_hexkey = hexkey_of o.encryption;
          sync = o.sync;
          seqno = seqno + 2;
        })
  unfolding query_pairs default filename
  read_pairs log seqno path o h k =
      let p0 : Params Io Log = start_params (seqno + 2) (of_file log seqno path) in
      let p1 : Params Io Log = record p0 {
        options = record (p0.options) { open_mode = o.open_mode };
      } in
      let p2 : Params Io Log = record p1 {
        options = record (p1.options) { cache_mode = o.cache_mode };
      } in
      let p3 : Params Io Log = record p2 {
        options = record (p2.options) { immutable = o.immutable };
      } in
      let p4 : Params Io Log = record p3 { options = record (p3.options) { vfs = o.vfs } } in
      let p5 : Params Io Log = record p4 {
        encryption_cipher = cipher_of o.encryption;
        encryption_hexkey = hexkey_of o.encryption;
      } in
      let p6 : Params Io Log = record p5 { sync = o.sync } in
      step (one_pair (codes "mode") (url_mode o.target o.open_mode)) (behind_mode o) p0 p1 (
        subst (λ t. apply_pairs (one_pair (codes "mode") (url_mode t o.open_mode)) p0 ≡ ok p1)
          (sym h) (read_mode o.open_mode path p0))
      ∙ step (one_pair (codes "cache") (url_value o.cache_mode)) (behind_cache o) p1 p2
          (read_cache o.cache_mode p1)
      ∙ step (if o.immutable then one_pair (codes "immutable") (codes "true") else [])
          (behind_immutable o) p2 p3 (read_immutable o.immutable p2)
      ∙ step (when_some o.vfs (one_pair (codes "vfs"))) (behind_vfs o) p3 p4 (read_vfs o.vfs p3)
      ∙ step (when_some o.encryption encryption_pairs) (behind_encryption o) p4 p5
          (read_encryption o.encryption p4)
      ∙ step (when_some o.sync sync_pairs) (feature_pairs (to_query_value o.experimental_features))
          p5 p6 (read_sync o.sync p5 k)
      ∙ read_features o.experimental_features p6

  finish_encryption_lem :
      (e : Option TursoEncryptionOptions) (o : TursoConnectOptions Io Log)
      → IsEncryption e
      → finish_encryption (cipher_of e) (hexkey_of e) (record o { encryption = none })
        ≡ ok (record o { encryption = e })
  unfolding finish_encryption
  finish_encryption_lem none o h = refl
  finish_encryption_lem (some e) o h = rw h refl

  finish_sync_lem :
      (s : Option TursoSyncOptions) (o : TursoConnectOptions Io Log)
      → IsSync s
      → finish_sync s (record o { sync = none }) ≡ ok (record o { sync = s })
  unfolding finish_sync
  finish_sync_lem none o h = refl
  finish_sync_lem (some s) o h = rw (h.0) refl

  apply_query_pairs-query_pairs :
      (log : Log) (seqno : ℕ) (path : Text) (o : TursoConnectOptions Io Log)
      → o.target ≡ file path
      → IsEncryption o.encryption
      → IsSync o.sync
      → apply_query_pairs (query_pairs o) (seqno + 2) (of_file log seqno path)
        ≡ ok (record (kept_by_url log seqno o) { target = file path })
  unfolding apply_query_pairs
  apply_query_pairs-query_pairs log seqno path o h e k =
      let start : TursoConnectOptions Io Log = record (kept_by_url log seqno o) {
        target = file path;
        encryption = none;
        sync = none;
      } in
      let with_encryption : TursoConnectOptions Io Log = record start {
        encryption = o.encryption;
      } in
      rw (read_pairs log seqno path o h k)
        (rw (finish_encryption_lem o.encryption start e) (finish_sync_lem o.sync with_encryption k))

  -- The options of a file that are well formed come back from the URL that is built of them: where
  -- the codecs read the database's path and the query pairs that were written, and the path is
  -- neither empty nor `:memory:`, the options read are those written, but for what a URL keeps not.
  -- Well formed are encryption options as `new` makes them, and sync options with a remote URL and a
  -- timeout of whole milliseconds below 2 ^ 64.
  pub from_db_and_params-query_pairs :
      (codec : UrlCodec) (log : Log) (seqno : ℕ) (database params path : Text)
      → (o : TursoConnectOptions Io Log) → o.target ≡ file path
      → IsEncryption o.encryption
      → IsSync o.sync
      → is_empty database ≡ false
      → text_eq database (codes ":memory:") ≡ false
      → codec.percent_decode database ≡ some path
      → codec.form_parse params ≡ query_pairs o
      → from_db_and_params codec log seqno database (some params) ≡ ok (kept_by_url log seqno o)
  unfolding from_db_and_params with_database
  from_db_and_params-query_pairs codec log seqno database params path o h e k given named decoded
        parsed =
      rw (given, named, decoded, parsed)
        (apply_query_pairs-query_pairs log seqno path o h e k
          ∙ ap (λ t. ok (record (kept_by_url log seqno o) { target = t })) (sym h))
