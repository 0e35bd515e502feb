-- ===== src/Options/Url/Whole.antt =====
-- crates/sqlx-turso-core/src/options.rs: a whole URL, from the options to its text and back. What the
-- crate url does with plain texts is what Crate states.
use sqlx_turso.Base.{
  is_empty, ok, ℕ, ◌≡◌, refl, sym, ap, subst, ◌∙◌, true, false, none, some, List, [], ◌∷◌, ◌++◌,
  append-nil, append_assoc,
}
use sqlx_turso.Text.{Text, codes, split_once_onto, text_eq}
use sqlx_turso.Options.Url.{UrlCodec, from_str}
use sqlx_turso.Options.Url.Build.{UrlCrate, trim_slashes, append_pairs, build_url}
use sqlx_turso.Options.Settings.{
  memory, file, TursoOpenMode, read_write_mode, create_if_missing_mode, read_only_mode, url_mode,
}
use sqlx_turso.Options.{TursoConnectOptions}
use sqlx_turso.Options.Url.Write.{query_pairs}
use sqlx_turso.Options.Url.Pairs.{IsSync, IsEncryption}
use sqlx_turso.Options.Url.RoundTrip.{kept_by_url, behind_mode, from_db_and_params-query_pairs}
use sqlx_turso.Options.Url.Crate.{
  NoMark, plain_host, plain_path, plain_host-NoMark, plain_host_start, plain_path-NoMark, UrlLaws,
}

split_once_onto-mark :
    (piece a b : Text)
    → NoMark a
    → split_once_onto b'?' piece (a ++ b'?' ∷ b) ≡ (piece ++ a, some b)
unfolding split_once_onto
split_once_onto-mark piece [] b h = rw (append-nil piece) refl
split_once_onto-mark piece (c ∷ cs) b h = rw (h.0) (
    split_once_onto-mark (piece ++ c ∷ []) cs b h.1
    ∙ ap (λ t. (t, some b)) (append_assoc piece (c ∷ []) cs))

NoMark-append : (a b : Text) → NoMark a → NoMark b → NoMark (a ++ b)
NoMark-append [] b h k = k
NoMark-append (c ∷ a) b h k = (h.0, NoMark-append a b h.1 k)

url_mode-file : (p q : Text) (m : TursoOpenMode) → url_mode (file p) m ≡ url_mode (file q) m
unfolding url_mode
url_mode-file p q read_write_mode = refl
url_mode-file p q create_if_missing_mode = refl
url_mode-file p q read_only_mode = refl

module _ (U : UrlCrate) (codec : UrlCodec) (laws : UrlLaws U codec) where
  open laws use {Shows, form}

  append_pairs-Shows :
      (qs : List (Text × Text)) (u : U.Url) (host path : Text) (before : List (Text × Text))
      → Shows u host path before
      → Shows (append_pairs U qs u) host path (before ++ qs)
  append_pairs-Shows [] u host path before h = subst (Shows u host path) (sym (append-nil before)) h
  append_pairs-Shows ((key, value) ∷ qs) u host path before h =
      subst (Shows (append_pairs U qs (U.append_pair key value u)) host path)
        (append_assoc before ((key, value) ∷ []) qs)
        (append_pairs-Shows qs (U.append_pair key value u) host path (before ++ (key, value) ∷ [])
          (laws.append_pair_law u host path before key value h))

  -- A host starts no name that the parser of options treats apart.
  named :
      (host path : Text)
      → plain_host host ≡ true
      → (is_empty (host ++ path) ≡ false)
        × (text_eq (host ++ path) (codes ":memory:") ≡ false)
        × (trim_slashes (host ++ path) ≡ host ++ path)
  unfolding text_eq
  named host path h =
      let (c, cs, e, slash, colon) = plain_host_start host h in
      rw (e, slash, colon) (refl, refl, refl)

  module _ {Io Log : Type 0} where
    moved_pairs :
        (p q : Text) (o : TursoConnectOptions Io Log)
        → o.target ≡ file p
        → query_pairs (record o { target = file q }) ≡ query_pairs o
    unfolding query_pairs
    moved_pairs p q o h =
        ap (λ m. (codes "mode", m) ∷ behind_mode o)
          (url_mode-file q p o.open_mode ∙ ap (λ t. url_mode t o.open_mode) (sym h))

    first_pair :
        (o : TursoConnectOptions Io Log)
        → query_pairs o ≡ (codes "mode", url_mode o.target o.open_mode) ∷ behind_mode o
    unfolding query_pairs
    first_pair o = refl

    as_str-append_pairs :
        (host path : Text) (u : U.Url) (o : TursoConnectOptions Io Log)
        → Shows u host path []
        → U.as_str (append_pairs U (query_pairs o) u)
          ≡ codes "turso://" ++ ((host ++ path) ++ b'?' ∷ form (query_pairs o))
    as_str-append_pairs host path u o seen =
        let first : Text × Text = (codes "mode", url_mode o.target o.open_mode) in
        laws.as_str_law (append_pairs U (query_pairs o) u) host path first (behind_mode o) (
          subst (Shows (append_pairs U (query_pairs o) u) host path) (first_pair o)
            (append_pairs-Shows (query_pairs o) u host path [] seen))
        ∙ ap (λ q. codes "turso://" ++ ((host ++ path) ++ b'?' ∷ form q)) (sym (first_pair o))

    -- What is read of the text of a URL with these query pairs.
    from_str-view :
        (log : Log) (seqno : ℕ) (host path : Text) (u : U.Url) (o : TursoConnectOptions Io Log)
        → plain_host host ≡ true
        → plain_path path ≡ true
        → Shows u host path []
        → o.target ≡ file (host ++ path)
        → IsEncryption o.encryption
        → IsSync o.sync
        → from_str codec log seqno (U.as_str (append_pairs U (query_pairs o) u))
          ≡ ok (kept_by_url log seqno o)
    unfolding from_str
    from_str-view log seqno host path u o h p seen target e s =
        let (given, name, trimmed) = named host path h in
        let rest : Text = (host ++ path) ++ b'?' ∷ form (query_pairs o) in
        let text : U.as_str (append_pairs U (query_pairs o) u) ≡ codes "turso://" ++ rest =
          as_str-append_pairs host path u o seen in
        let parts : split_once_onto b'?' [] rest ≡ (host ++ path, some (form (query_pairs o))) =
          split_once_onto-mark [] (host ++ path) (form (query_pairs o))
            (NoMark-append host path (plain_host-NoMark host h) (plain_path-NoMark path p)) in
        rw (text, parts)
          (from_db_and_params-query_pairs codec log seqno (host ++ path) (form (query_pairs o))
            (host ++ path) o target e s given name (laws.decode_law host path h p)
            (laws.form_law (query_pairs o)))

    -- A plain file at a relative path comes back from the URL that is built of its options, with what
    -- a URL keeps of them.
    pub from_str-build_url :
        (log : Log) (seqno : ℕ) (host path : Text) (o : TursoConnectOptions Io Log)
        → plain_host host ≡ true
        → plain_path path ≡ true
        → o.target ≡ file (host ++ path)
        → U.is_absolute (host ++ path) ≡ false
        → IsEncryption o.encryption
        → IsSync o.sync
        → (u : U.Url) × (build_url U o ≡ some u)
          × (from_str codec log seqno (U.as_str u) ≡ ok (kept_by_url log seqno o))
    unfolding build_url
    from_str-build_url log seqno host path o h p target relative e s =
        let (given, name, trimmed) = named host path h in
        let (u, made, seen) = laws.parse_law host path h p in
        (
          append_pairs U (query_pairs o) u,
          rw (target, trimmed, made, relative) refl,
          from_str-view log seqno host path u o h p seen target e s,
        )

    -- The path of a plain file at an absolute path does not come back: the URL that is built has the
    -- first name of the path as its host, and the whole path behind it, so what is read is a relative
    -- path that starts with this name twice.
    pub from_str-build_url_absolute :
        (log : Log) (seqno : ℕ) (host path : Text) (o : TursoConnectOptions Io Log)
        → plain_host host ≡ true
        → plain_path path ≡ true
        → plain_path (b'/' ∷ (host ++ path)) ≡ true
        → o.target ≡ file (b'/' ∷ (host ++ path))
        → U.is_absolute (b'/' ∷ (host ++ path)) ≡ true
        → IsEncryption o.encryption
        → IsSync o.sync
        → (u : U.Url) × (build_url U o ≡ some u)
          × (from_str codec log seqno (U.as_str u)
              ≡ ok (record (kept_by_url log seqno o) {
                target = file (host ++ b'/' ∷ (host ++ path));
              }))
    unfolding build_url
    from_str-build_url_absolute log seqno host path o h p whole target absolute e s =
        let (given, name, trimmed) = named host path h in
        let (u, made, seen) = laws.parse_law host path h p in
        let full : Text = b'/' ∷ (host ++ path) in
        let o' : TursoConnectOptions Io Log = record o { target = file (host ++ full) } in
        let same : query_pairs o' ≡ query_pairs o = moved_pairs full (host ++ full) o target in
        (
          append_pairs U (query_pairs o) (U.set_path full u),
          rw (target, trimmed, made, absolute) refl,
          subst
              (λ q.
                from_str codec log seqno (U.as_str (append_pairs U q (U.set_path full u)))
                ≡ ok (kept_by_url log seqno o'))
              same
              (from_str-view log seqno host full (U.set_path full u) o' h whole
                (laws.set_path_law u host path full seen whole) refl e s),
        )

    -- The URL of an in-memory database cannot be built, where the crate refuses a URL with an empty
    -- host and a port that is no number: `build_url` panics.
    build_url-memory :
        (o : TursoConnectOptions Io Log) (name : Text)
        → U.parse (codes "turso://:memory:") ≡ none
        → o.target ≡ memory name
        → build_url U o ≡ none
    unfolding build_url
    build_url-memory o name refused h = rw (h, refused) refl
