-- ===== src/Options/Url/Build.antt =====
-- crates/sqlx-turso-core/src/options.rs: `build_url` as a whole. The type `Url` and its operations
-- are parameters, and so is `Path::is_absolute`.
use sqlx_turso.Base.{◌==◌, if◌then◌else◌, Bool, Option, none, some, List, [], ◌∷◌, ◌++◌}
use sqlx_turso.Text.{Text, codes}
use sqlx_turso.Options.Settings.{TursoDatabaseTarget, memory, file}
use sqlx_turso.Options.{TursoConnectOptions}
use sqlx_turso.Options.Url.Write.{query_pairs}

-- `append_pair` is called on `query_pairs_mut()`.
pub record UrlCrate : Type 1 where
  pub Url : Type 0
  pub parse : Text → Option Url
  pub set_path : Text → Url → Url
  pub append_pair : Text → Text → Url → Url
  pub as_str : Url → Text
  pub is_absolute : Text → Bool

-- `trim_start_matches('/')`
abbrev pub trim_slashes : Text → Text
trim_slashes [] = []
trim_slashes (c ∷ cs) = if c == b'/' then trim_slashes cs else c ∷ cs

abbrev target_path : TursoDatabaseTarget → Text
target_path (memory _) = codes ":memory:"
target_path (file path) = path

module _ (U : UrlCrate) where
  abbrev pub append_pairs : List (Text × Text) → U.Url → U.Url
  append_pairs [] u = u
  append_pairs ((key, value) ∷ pairs) u = append_pairs pairs (U.append_pair key value u)

  abbrev with_path : TursoDatabaseTarget → U.Url → U.Url
  with_path (memory _) u = u
  with_path (file path) u = if U.is_absolute path then U.set_path path u else u

  module _ {Io Log : Type 0} where
    abbrev finish_url : TursoConnectOptions Io Log → Option U.Url → Option U.Url
    finish_url o none = none
    finish_url o (some u) = some (append_pairs (query_pairs o) (with_path o.target u))

    -- `build_url`; nothing stands for the panic of its `expect`.
    unfoldable pub build_url : TursoConnectOptions Io Log → Option U.Url
    unfolding query_pairs
    build_url o = finish_url o (U.parse (codes "turso://" ++ trim_slashes (target_path o.target)))
