-- ===== src/Migrate/Files.antt =====
-- crates/sqlx-turso-core/src/lifecycle.rs and the `MigrateDatabase` of migrate.rs: the files of a
-- database. The file system is a parameter.
pub mod Removal
use sqlx_turso.Base.{Result, ok, err, Bool, true, List, [], ◌∷◌, ◌++◌, map}
use sqlx_turso.Text.{Text, codes}
use sqlx_turso.Error.{Error, io}
use sqlx_turso.Action.{Action}
use sqlx_turso.Options.{TursoConnectOptions}
use sqlx_turso.Options.Settings.{TursoDatabaseTarget, memory, file}
use sqlx_turso.Options.Url.{UrlCodec, from_str}

-- `std::io::Error`, by its kind, as far as the code looks at it.
pub data IoError : Type 0 where
  not_found : IoError
  other_kind : Text → IoError

pub record FileSystem : Type 1 where
  pub State : Type 0
  pub exists : Text → State → Bool
  pub remove_file : Text → State → Result (Unit {0}) IoError × State

abbrev suffixes : List Text
suffixes =
    []
    ∷ codes "-wal"
    ∷ codes "-shm"
    ∷ codes "-wal-tshm"
    ∷ codes "-wal-revert"
    ∷ codes "-info"
    ∷ codes "-changes"
    ∷ []

-- `known_database_files`
abbrev pub known_database_files : Text → List Text
known_database_files base = map (λ suffix. base ++ suffix) suffixes

module _ (D : FileSystem) where
  -- What the loop does with the answer for one file, where `rest` is the rest of the loop.
  abbrev pub go_on :
      Result (Unit {0}) IoError × D.State
      → Action D.State (Unit {0})
      → Result (Unit {0}) Error × D.State
  go_on (ok _, s) rest = rest s
  go_on (err not_found, s) rest = rest s
  go_on (err (other_kind e), s) rest = (err (io e), s)

  unfoldable pub remove_files : List Text → Action D.State (Unit {0})
  remove_files [] s = (ok tt, s)
  remove_files (f ∷ fs) s = go_on (D.remove_file f s) (λ t. remove_files fs t)

  -- `remove_known_database_files`
  abbrev remove_known_database_files : Text → Action D.State (Unit {0})
  remove_known_database_files path = remove_files (known_database_files path)

  abbrev pub drop_target : TursoDatabaseTarget → Action D.State (Unit {0})
  drop_target (memory _) s = (ok tt, s)
  drop_target (file path) s = remove_known_database_files path s

  abbrev target_exists : TursoDatabaseTarget → D.State → Bool
  target_exists (memory _) s = true
  target_exists (file path) s = D.exists path s

  module _ (Io Log : Type 0) (codec : UrlCodec) (log : Log) where
    abbrev parsed : Text → Result (TursoConnectOptions Io Log) Error
    parsed url = from_str codec log 0 url

    abbrev drop_parsed : Result (TursoConnectOptions Io Log) Error → Action D.State (Unit {0})
    drop_parsed (err e) s = (err e, s)
    drop_parsed (ok o) s = drop_target o.target s

    -- `drop_database`
    unfoldable pub drop_database : Text → Action D.State (Unit {0})
    unfolding from_str remove_files
    drop_database url = drop_parsed (parsed url)

    abbrev exists_parsed : Result (TursoConnectOptions Io Log) Error → D.State → Result Bool Error
    exists_parsed (err e) s = err e
    exists_parsed (ok o) s = ok (target_exists o.target s)

    -- `database_exists`
    unfoldable pub database_exists : Text → D.State → Result Bool Error
    unfolding from_str
    database_exists url s = exists_parsed (parsed url) s
