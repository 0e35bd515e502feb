-- ===== src/Options/Url/Pairs.antt =====
-- What the loop over the query pairs reads of the pairs that are written of one option.
use sqlx_turso.Base.{
  if◌then◌else◌, if_elim, is_empty, Result, ok, err, ◌>>=◌, ℕ, ◌*◌, ◌/◌, ◌^◌, ◌<◌, ◌≡◌, refl, sym,
  ap, ◌∙◌, Bool, true, false, not, Option, none, some, List, [], ◌∷◌, ◌++◌, arith,
}
use sqlx_turso.Text.{Text, codes, text_eq, split_onto, split}
use sqlx_turso.Text.Decimal.{show_nat, parse_unsigned-show_nat}
use sqlx_turso.Error.{Error}
use sqlx_turso.Options.Features.{TursoExperimentalFeatures, no_features, to_query_value}
use sqlx_turso.Options.Settings.{
  file, TursoOpenMode, read_write_mode, create_if_missing_mode, read_only_mode, TursoCacheMode,
  private, shared, from_read_only, from_create_if_missing, url_mode, from_shared, url_value,
  TursoEncryptionOptions, new_encryption, TursoSyncOptions, new_sync, parse_bool,
}
use sqlx_turso.Options.{read_only, create_if_missing, shared_cache, vfs}
use sqlx_turso.Options.Url.{
  Params, apply_mode, apply_cache, apply_immutable, apply_features, apply_timeout, apply_pair,
  apply_pairs,
}
use sqlx_turso.Options.Url.Write.{when_some, one_pair, encryption_pairs, feature_pairs, sync_pairs}
use sqlx_turso.Options.Url.FeatureNames.{with_features, apply_features-to_query_value}

module _ {Io Log : Type 0} where
  chain :
      (r : Result (Params Io Log) Error) (f g h : Params Io Log → Result (Params Io Log) Error)
      → ((q : Params Io Log) → f q ≡ (g q >>= h))
      → (r >>= f) ≡ ((r >>= g) >>= h)
  chain (ok q) f g h e = e q
  chain (err _) f g h e = refl

  -- The pairs of two lists, one after the other.
  apply_pairs-append :
      (xs ys : List (Text × Text)) (p : Params Io Log)
      → apply_pairs (xs ++ ys) p ≡ (apply_pairs xs p >>= apply_pairs ys)
  unfolding apply_pairs
  apply_pairs-append [] ys p = refl
  apply_pairs-append ((key, value) ∷ xs) ys p =
      chain (apply_pair key value p) (apply_pairs (xs ++ ys)) (apply_pairs xs) (apply_pairs ys)
        (λ q. apply_pairs-append xs ys q)

  pub step :
      (xs ys : List (Text × Text)) (p q : Params Io Log)
      → apply_pairs xs p ≡ ok q
      → apply_pairs (xs ++ ys) p ≡ apply_pairs ys q
  step xs ys p q h = apply_pairs-append xs ys p ∙ ap (λ r. r >>= apply_pairs ys) h

-- What is written of a timeout is whole milliseconds, in a number that is read as `u64`.
abbrev IsTimeout : Option ℕ → Type 0
IsTimeout none = Unit
IsTimeout (some t) = (t / 10 ^ 6 * 10 ^ 6 ≡ t) × (t / 10 ^ 6 < 2 ^ 64)

abbrev pub IsSync : Option TursoSyncOptions → Type 0
IsSync none = Unit
IsSync (some s) = (is_empty s.remote_url ≡ false) × IsTimeout s.long_poll_timeout

abbrev token : TursoSyncOptions → List (Text × Text)
token s = when_some s.auth_token (one_pair (codes "sync_auth_token"))

abbrev client : TursoSyncOptions → List (Text × Text)
client s = when_some s.client_name (one_pair (codes "sync_client_name"))

abbrev timeout : TursoSyncOptions → List (Text × Text)
timeout s =
    when_some s.long_poll_timeout
      (λ t. one_pair (codes "sync_long_poll_timeout_ms") (show_nat (t / 10 ^ 6)))

abbrev bootstrap : TursoSyncOptions → List (Text × Text)
bootstrap s =
    if not s.bootstrap_if_empty
    then one_pair (codes "sync_bootstrap_if_empty") (codes "false")
    else []

-- The encryption options are as `new` makes them.
abbrev pub IsEncryption : Option TursoEncryptionOptions → Type 0
IsEncryption none = Unit
IsEncryption (some e) = new_encryption e.cipher e.hexkey ≡ ok e

abbrev pub cipher_of : Option TursoEncryptionOptions → Option Text
cipher_of none = none
cipher_of (some e) = some e.cipher

abbrev pub hexkey_of : Option TursoEncryptionOptions → Option Text
hexkey_of none = none
hexkey_of (some e) = some e.hexkey

module _ {Io Log : Type 0} where
  pub read_mode :
      (m : TursoOpenMode) (path : Text) (p : Params Io Log)
      → apply_pairs
          (one_pair (codes "mode") (url_mode (file path) m))
          (record p { options = record (p.options) { open_mode = read_write_mode } })
        ≡ ok (record p { options = record (p.options) { open_mode = m } })
  unfolding apply_pairs apply_pair apply_mode text_eq url_mode read_only create_if_missing
      from_read_only from_create_if_missing
  read_mode read_write_mode path p = refl
  read_mode create_if_missing_mode path p = refl
  read_mode read_only_mode path p = refl

  pub read_cache :
      (c : TursoCacheMode) (p : Params Io Log)
      → apply_pairs (one_pair (codes "cache") (url_value c)) p
        ≡ ok (record p { options = record (p.options) { cache_mode = c } })
  unfolding apply_pairs apply_pair apply_cache text_eq url_value shared_cache from_shared
  read_cache private p = refl
  read_cache shared p = refl

  pub read_immutable :
      (i : Bool) (p : Params Io Log)
      → apply_pairs
          (if i then one_pair (codes "immutable") (codes "true") else [])
          (record p { options = record (p.options) { immutable = false } })
        ≡ ok (record p { options = record (p.options) { immutable = i } })
  unfolding apply_pairs apply_pair apply_immutable text_eq
  read_immutable true p = refl
  read_immutable false p = refl

  pub read_vfs :
      (v : Option Text) (p : Params Io Log)
      → apply_pairs
          (when_some v (one_pair (codes "vfs")))
          (record p { options = record (p.options) { vfs = none; custom_io = none } })
        ≡ ok (record p { options = record (p.options) { vfs = v; custom_io = none } })
  unfolding apply_pairs apply_pair text_eq vfs
  read_vfs none p = refl
  read_vfs (some name) p = refl

  pub read_encryption :
      (e : Option TursoEncryptionOptions) (p : Params Io Log)
      → apply_pairs
          (when_some e encryption_pairs)
          (record p { encryption_cipher = none; encryption_hexkey = none })
        ≡ ok (record p { encryption_cipher = cipher_of e; encryption_hexkey = hexkey_of e })
  unfolding apply_pairs apply_pair text_eq
  read_encryption none p = refl
  read_encryption (some e) p = refl

  read_token :
      (t : Option Text) (s : TursoSyncOptions) (p : Params Io Log)
      → apply_pairs
          (when_some t (one_pair (codes "sync_auth_token")))
          (record p { sync = some (record s { auth_token = none }) })
        ≡ ok (record p { sync = some (record s { auth_token = t }) })
  unfolding apply_pairs apply_pair text_eq
  read_token none s p = refl
  read_token (some t) s p = refl

  read_client :
      (t : Option Text) (s : TursoSyncOptions) (p : Params Io Log)
      → apply_pairs
          (when_some t (one_pair (codes "sync_client_name")))
          (record p { sync = some (record s { client_name = none }) })
        ≡ ok (record p { sync = some (record s { client_name = t }) })
  unfolding apply_pairs apply_pair text_eq
  read_client none s p = refl
  read_client (some t) s p = refl

  read_timeout :
      (t : Option ℕ) (s : TursoSyncOptions) (p : Params Io Log)
      → IsTimeout t
      → apply_pairs
          (when_some t (λ t. one_pair (codes "sync_long_poll_timeout_ms") (show_nat (t / 10 ^ 6))))
          (record p { sync = some (record s { long_poll_timeout = none }) })
        ≡ ok (record p { sync = some (record s { long_poll_timeout = t }) })
  unfolding apply_pairs apply_pair text_eq apply_timeout
  read_timeout none s p h = refl
  read_timeout (some t) s p h =
      rw (parse_unsigned-show_nat (2 ^ 64) (t / 10 ^ 6) h.1)
        (ap (λ n. ok (record p { sync = some (record s { long_poll_timeout = some n }) })) h.0)

  read_bootstrap :
      (b : Bool) (s : TursoSyncOptions) (p : Params Io Log)
      → apply_pairs
          (if not b then one_pair (codes "sync_bootstrap_if_empty") (codes "false") else [])
          (record p { sync = some (record s { bootstrap_if_empty = true }) })
        ≡ ok (record p { sync = some (record s { bootstrap_if_empty = b }) })
  unfolding apply_pairs apply_pair text_eq parse_bool
  read_bootstrap true s p = refl
  read_bootstrap false s p = refl

  pub read_features :
      (f : TursoExperimentalFeatures) (p : Params Io Log)
      → apply_pairs (feature_pairs (to_query_value f)) (with_features p no_features)
        ≡ ok (with_features p f)
  unfolding apply_pairs apply_pair text_eq apply_features split_onto
  read_features f p =
      if_elim (λ l. apply_pairs l (with_features p no_features) ≡ ok (with_features p f))
        (not (is_empty (to_query_value f)))
        (λ _. ap (λ r. r >>= apply_pairs []) (apply_features-to_query_value p f))
        (λ e.
          sym (
            ap (λ l. apply_features (split b',' l) (with_features p no_features))
              (no_text (to_query_value f) e))
          ∙ apply_features-to_query_value p f)
    where
      no_text : (l : Text) → not (is_empty l) ≡ false → l ≡ []
      no_text [] e = refl
      no_text (x ∷ l) e = ground arith

  -- The pairs behind the first are those of the options that are set.
  pub read_sync :
      (s : Option TursoSyncOptions) (p : Params Io Log)
      → IsSync s
      → apply_pairs (when_some s sync_pairs) (record p { sync = none }) ≡ ok (record p { sync = s })
  unfolding sync_pairs
  read_sync none p h = unfold apply_pairs in refl
  read_sync (some s) p h =
      let s0 : TursoSyncOptions = new_sync s.remote_url in
      let s1 : TursoSyncOptions = record s0 { auth_token = s.auth_token } in
      let s2 : TursoSyncOptions = record s1 { client_name = s.client_name } in
      let s3 : TursoSyncOptions = record s2 { long_poll_timeout = s.long_poll_timeout } in
      step (one_pair (codes "sync_remote_url") s.remote_url)
        (token s ++ (client s ++ (timeout s ++ bootstrap s))) (record p { sync = none })
        (record p { sync = some s0 }) (unfold apply_pairs apply_pair text_eq in refl)
      ∙ step (token s) (client s ++ (timeout s ++ bootstrap s)) (record p { sync = some s0 })
          (record p { sync = some s1 }) (read_token s.auth_token s0 p)
      ∙ step (client s) (timeout s ++ bootstrap s) (record p { sync = some s1 })
          (record p { sync = some s2 }) (read_client s.client_name s1 p)
      ∙ step (timeout s) (bootstrap s) (record p { sync = some s2 }) (record p { sync = some s3 })
          (read_timeout s.long_poll_timeout s2 p h.1)
      ∙ read_bootstrap s.bootstrap_if_empty s3 p
