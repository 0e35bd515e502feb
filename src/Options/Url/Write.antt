-- ===== src/Options/Url/Write.antt =====
-- crates/sqlx-turso-core/src/options.rs: `build_url`, which writes the options as query pairs of a URL.
use sqlx_turso.Base.{
  if◌then◌else◌, is_empty, ◌/◌, ◌^◌, not, Option, none, some, List, [], ◌∷◌, ◌++◌,
}
use sqlx_turso.Text.{Text, codes}
use sqlx_turso.Text.Decimal.{show_nat}
use sqlx_turso.Options.Features.{to_query_value}
use sqlx_turso.Options.Settings.{url_mode, url_value, TursoEncryptionOptions, TursoSyncOptions}
use sqlx_turso.Options.{TursoConnectOptions}

-- `build_url`: the pairs that it appends, each where its option is set.
abbrev pub when_some : {A : Type 0} → Option A → (A → List (Text × Text)) → List (Text × Text)
when_some none f = []
when_some (some a) f = f a

abbrev pub one_pair : Text → Text → List (Text × Text)
one_pair key value = (key, value) ∷ []

abbrev pub encryption_pairs : TursoEncryptionOptions → List (Text × Text)
encryption_pairs e =
    (codes "encryption_cipher", e.cipher) ∷ (codes "encryption_hexkey", e.hexkey) ∷ []

abbrev pub feature_pairs : Text → List (Text × Text)
feature_pairs value = if not (is_empty value) then one_pair (codes "experimental") value else []

unfoldable pub sync_pairs : TursoSyncOptions → List (Text × Text)
unfolding show_nat
sync_pairs s =
    one_pair (codes "sync_remote_url") s.remote_url
    ++ (when_some s.auth_token (one_pair (codes "sync_auth_token"))
        ++ (when_some s.client_name (one_pair (codes "sync_client_name"))
            ++ (when_some s.long_poll_timeout
                  (λ t. one_pair (codes "sync_long_poll_timeout_ms") (show_nat (t / 10 ^ 6)))
                ++ (if not s.bootstrap_if_empty
                    then one_pair (codes "sync_bootstrap_if_empty") (codes "false")
                    else []))))

module _ {Io Log : Type 0} where
  unfoldable pub query_pairs : TursoConnectOptions Io Log → List (Text × Text)
  unfolding sync_pairs url_mode url_value to_query_value
  query_pairs o =
      one_pair (codes "mode") (url_mode o.target o.open_mode)
      ++ (one_pair (codes "cache") (url_value o.cache_mode)
          ++ ((if o.immutable then one_pair (codes "immutable") (codes "true") else [])
              ++ (when_some o.vfs (one_pair (codes "vfs"))
                  ++ (when_some o.encryption encryption_pairs
                      ++ (when_some o.sync sync_pairs
                          ++ feature_pairs (to_query_value o.experimental_features))))))
