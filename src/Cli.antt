-- ===== src/Cli.antt =====
-- crates/sqlx-turso-cli/src/main.rs: the command `prepare`. A path is its text; the file system, the
-- operations of `Path` and the program that is run are parameters.
pub mod Sibling
pub mod Free
pub mod Prepare
pub mod Commit
pub mod Runs
pub mod Prepared
pub mod Kept
use sqlx_turso.Base.{Result, ok, err, Bool, Option, ◌++◌}
use sqlx_turso.Text.{Text}

-- What may fail, with the error's text, and changes the file system.
abbrev pub Io : Type 0 → Type 0 → Type 0
Io S A = S → Result A Text × S

-- `map_err(|error| format!("{message}{error}"))`
abbrev pub described : {S A : Type 0} → Text → Result A Text × S → Result A Text × S
described message (ok a, s) = (ok a, s)
described message (err e, s) = (err (message ++ e), s)

-- What of `std::path` the command uses: `is_current` is equality with `.`, and a path `is_root` that
-- has a root and no parent. `file_name` is the lossy text.
pub record Paths : Type 0 where
  pub parent : Text → Option Text
  pub file_name : Text → Option Text
  pub join : Text → Text → Text
  pub is_current : Text → Bool
  pub has_root : Text → Bool

-- What of `std::fs` the command uses.
pub record FileSystem : Type 1 where
  pub State : Type 0
  pub exists : State → Text → Bool
  pub is_dir : State → Text → Bool
  pub create_dir_all : Text → Io State (Unit {0})
  pub create_dir : Text → Io State (Unit {0})
  pub remove_dir_all : Text → Io State (Unit {0})
  pub rename : Text → Text → Io State (Unit {0})
