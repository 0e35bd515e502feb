-- ===== src/Tests/Urls.antt =====
-- The theorems on options as a whole: the round trip through a URL, and chains of setters.
use sqlx_turso.Base.{
  ◌==◌, if◌then◌else◌, ok, ℕ, ◌+◌, ◌-◌, ◌*◌, ◌^◌, ◌≡◌, refl, sym, ap, ◌∙◌, Bool, true, false,
  Option, none, some, List, [], ◌∷◌, ◌++◌, append-nil, append_assoc, arith,
}
use sqlx_turso.Text.{Text, codes, strip_prefix}
use sqlx_turso.Text.Laws.{strip_prefix-append}
use sqlx_turso.Options.Features.{no_features}
use sqlx_turso.Options.Settings.{
  file, read_only_mode, shared, all_hexdigits, new_encryption, TursoSyncOptions, new_sync,
}
use sqlx_turso.Options.{TursoConnectOptions, default}
use sqlx_turso.Options.Setters.{Setter, to_memory, to_vfs, to_custom_io, to_pragma, call_all}
use sqlx_turso.Options.Setters.Invariant.{IsConsistent, call_all-IsConsistent}
use sqlx_turso.Options.Url.{UrlCodec, from_str}
use sqlx_turso.Options.Url.RoundTrip.{kept_by_url}
use sqlx_turso.Options.Url.Build.{UrlCrate, build_url}
use sqlx_turso.Options.Url.Crate.{
  plain_host, plain_inside, plain_segment, plain_path, NoSlash, plain_host-NoSlash, UrlLaws,
}
use sqlx_turso.Options.Url.Whole.{from_str-build_url, from_str-build_url_absolute}

abbrev database : Text
database = codes "tmp/a.db"

abbrev synced : TursoSyncOptions
synced = record (new_sync (codes "https://x")) {
  auth_token = some (codes "t");
  long_poll_timeout = some (3 * 10 ^ 6);
  bootstrap_if_empty = false;
}

abbrev written : TursoConnectOptions ℕ ℕ
written = record {
  target = file database;
  open_mode = read_only_mode;
  cache_mode = shared;
  immutable = true;
  busy_timeout = 7;
  statement_cache_capacity = 8;
  vfs = some (codes "io");
  custom_io = none;
  encryption = some (record { cipher = codes "c"; hexkey = codes "0a" });
  sync = some synced;
  experimental_features = record no_features { attach = true };
  pragmas = [];
  log_settings = 0;
  memory_state = 0;
}

-- A form has the characters of a name and a value moved by three, and an end behind each.
abbrev moved : Text → Text
moved [] = []
moved (c ∷ cs) = (c + 3) ∷ moved cs

abbrev form_of : List (Text × Text) → Text
form_of [] = []
form_of ((key, value) ∷ pairs) = moved key ++ 1 ∷ (moved value ++ 2 ∷ form_of pairs)

unfoldable mutual
  read_key : Text → Text → List (Text × Text)
  read_key key [] = []
  read_key key (c ∷ cs) = if c == 1 then read_value key [] cs else read_key (key ++ (c - 3) ∷ []) cs

  read_value : Text → Text → Text → List (Text × Text)
  read_value key value [] = []
  read_value key value (c ∷ cs) =
      if c == 2 then (key, value) ∷ read_key [] cs else read_value key (value ++ (c - 3) ∷ []) cs

moved_char : (c : ℕ) → ((c + 3 == 1) ≡ false) × ((c + 3 == 2) ≡ false) × ((c + 3) - 3 ≡ c)
moved_char c = (ground arith, ground arith, omega arith)

read_key-moved :
    (before key rest : Text)
    → read_key before (moved key ++ 1 ∷ rest) ≡ read_value (before ++ key) [] rest
unfolding read_key read_value
read_key-moved before [] rest = ap (λ k. read_value k [] rest) (sym (append-nil before))
read_key-moved before (c ∷ cs) rest =
    let (end, _, back) = moved_char c in
    rw (end, back)
      (read_key-moved (before ++ c ∷ []) cs rest
        ∙ ap (λ k. read_value k [] rest) (append_assoc before (c ∷ []) cs))

read_value-moved :
    (key before value rest : Text)
    → read_value key before (moved value ++ 2 ∷ rest) ≡ (key, before ++ value) ∷ read_key [] rest
unfolding read_key read_value
read_value-moved key before [] rest =
    ap (λ v. (key, v) ∷ read_key [] rest) (sym (append-nil before))
read_value-moved key before (c ∷ cs) rest =
    let (_, end, back) = moved_char c in
    rw (end, back)
      (read_value-moved key (before ++ c ∷ []) cs rest
        ∙ ap (λ v. (key, v) ∷ read_key [] rest) (append_assoc before (c ∷ []) cs))

read-form_of : (pairs : List (Text × Text)) → read_key [] (form_of pairs) ≡ pairs
unfolding read_key read_value
read-form_of [] = refl
read-form_of ((key, value) ∷ pairs) =
    read_key-moved [] key (moved value ++ 2 ∷ form_of pairs)
    ∙ read_value-moved key [] value (form_of pairs)
    ∙ ap (λ l. (key, value) ∷ l) (read-form_of pairs)

abbrev codec : UrlCodec
codec = record { percent_decode = λ s. some s; form_parse = read_key [] }

-- A URL is its host, its path and its pairs; the host ends in front of the first slash.
abbrev Parts : Type 0
Parts = Text × Text × List (Text × Text)

unfoldable split_host : Text → Text × Text
split_host [] = ([], [])
split_host (c ∷ cs) =
    let later = split_host cs in if c == b'/' then ([], c ∷ cs) else (c ∷ later.0, later.1)

abbrev parts_of : Option Text → Option Parts
parts_of none = none
parts_of (some t) = some ((split_host t).0, (split_host t).1, [])

abbrev query_text : List (Text × Text) → Text
query_text [] = []
query_text (q ∷ qs) = b'?' ∷ form_of (q ∷ qs)

abbrev starts_with_slash : Text → Bool
starts_with_slash [] = false
starts_with_slash (c ∷ _) = c == b'/'

abbrev parts_crate : UrlCrate
parts_crate = record {
  Url = Parts;
  parse = λ t. parts_of (strip_prefix (codes "turso://") t);
  set_path = λ p u. (u.0, p, u.2);
  append_pair = λ k v u. (u.0, u.1, u.2 ++ (k, v) ∷ []);
  as_str = λ u. codes "turso://" ++ ((u.0 ++ u.1) ++ query_text u.2);
  is_absolute = starts_with_slash;
}

split_host-path : (path : Text) → plain_path path ≡ true → split_host path ≡ ([], path)
unfolding split_host
split_host-path [] h = refl
split_host-path (c ∷ cs) h = ground arith

split_host-append :
    (host path : Text)
    → NoSlash host
    → plain_path path ≡ true
    → split_host (host ++ path) ≡ (host, path)
unfolding split_host
split_host-append [] path h k = split_host-path path k
split_host-append (c ∷ cs) path h k =
    rw (h.0) (ap (λ s. (c ∷ s.0, s.1)) (split_host-append cs path h.1 k))

parts_parse :
    (host path : Text)
    → plain_host host ≡ true
    → plain_path path ≡ true
    → (u : Parts) × (parts_crate.parse (codes "turso://" ++ (host ++ path)) ≡ some u)
      × (u ≡ (host, path, []))
parts_parse host path h k = (
  (host, path, []),
  ap parts_of (strip_prefix-append (codes "turso://") (host ++ path))
      ∙ ap (λ p. some (p.0, p.1, [])) (split_host-append host path (plain_host-NoSlash host h) k),
  refl,
)

parts_as_str :
    (u : Parts) (host path : Text) (q : Text × Text) (qs : List (Text × Text))
    → u ≡ (host, path, q ∷ qs)
    → parts_crate.as_str u ≡ codes "turso://" ++ ((host ++ path) ++ b'?' ∷ form_of (q ∷ qs))
parts_as_str u host path q qs h = ap parts_crate.as_str h

abbrev parts_laws : UrlLaws parts_crate codec
parts_laws = record {
  Shows = λ u host path pairs. u ≡ (host, path, pairs);
  form = form_of;
  parse_law = parts_parse;
  set_path_law = λ u host path new_path h k. ap (λ v. (v.0, new_path, v.2)) h;
  append_pair_law =
      λ u host path pairs key value h. ap (λ v. (v.0, v.1, v.2 ++ (key, value) ∷ [])) h;
  as_str_law = parts_as_str;
  form_law = read-form_of;
  decode_law = λ host path h k. refl;
}

from_str-build_url_example :
    (u : Parts) × (build_url parts_crate written ≡ some u)
    × (from_str codec 0 1 (parts_crate.as_str u) ≡ ok (kept_by_url 0 1 written))
unfolding new_encryption all_hexdigits plain_segment plain_inside
from_str-build_url_example =
    from_str-build_url parts_crate codec parts_laws 0 1 (codes "tmp") (codes "/a.db") written refl
      refl refl refl refl (refl, (refl, omega arith))

abbrev absolute : TursoConnectOptions ℕ ℕ
absolute = record written { target = file (codes "/tmp/a.db") }

from_str-build_url_absolute_example :
    (u : Parts) × (build_url parts_crate absolute ≡ some u)
    × (from_str codec 0 1 (parts_crate.as_str u)
        ≡ ok (record (kept_by_url 0 1 absolute) { target = file (codes "tmp/tmp/a.db") }))
unfolding new_encryption all_hexdigits plain_segment plain_inside
from_str-build_url_absolute_example =
    from_str-build_url_absolute parts_crate codec parts_laws 0 1 (codes "tmp") (codes "/a.db")
      absolute refl refl refl refl refl refl (refl, (refl, omega arith))

abbrev calls : List (Setter ℕ ℕ)
calls =
    to_vfs (codes "io")
    ∷ to_pragma (codes "synchronous") (some (codes "OFF"))
    ∷ to_custom_io 4
    ∷ to_pragma (codes "cache_size") (some (codes "9"))
    ∷ to_memory 2 false
    ∷ []

call_all-IsConsistent_example : IsConsistent (call_all calls (default 0 1))
call_all-IsConsistent_example = call_all-IsConsistent calls 0 1
