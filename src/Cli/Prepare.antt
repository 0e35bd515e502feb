-- ===== src/Cli/Prepare.antt =====
-- crates/sqlx-turso-cli/src/main.rs: `Prepare` and `PrepareWorkspace`. The search for a free name is
-- given fuel; where it runs out, the code's `unreachable!` is an error here.
use sqlx_turso.Base.{
  if◌then◌else◌, is_some, is_empty, Result, ok, err, and_then, ℕ, Bool, true, false, not, ◌&&◌,
  Option, none, some, List, [], ◌∷◌, ◌++◌,
}
use sqlx_turso.Text.{Text, codes}
use sqlx_turso.Cli.{Io, described, Paths, FileSystem}
use sqlx_turso.Cli.Sibling.{or_text, parent_dir, unique_sibling}

pub record Prepare : Type 0 where
  pub database_url : Option Text
  pub offline_dir : Text
  pub cargo_args : List Text

pub record CommandSpec : Type 0 where
  pub program : Text
  pub args : List Text
  pub envs : List (Text × Text)

pub record PrepareWorkspace : Type 0 where
  pub final_dir : Text
  pub staging_dir : Text
  pub backup_dir : Text

abbrev check_args : List Text → List Text
check_args [] = codes "--all-targets" ∷ []
check_args (a ∷ rest) = a ∷ rest

abbrev url_env : Option Text → List (Text × Text)
url_env none = []
url_env (some url) = (codes "DATABASE_URL", url) ∷ []

unfoldable pub command_spec : Prepare → Text → Text → CommandSpec
command_spec prepare cargo dir = record {
  program = cargo;
  args = codes "check" ∷ check_args prepare.cargo_args;
  envs = (codes "SQLX_OFFLINE_DIR", dir) ∷ url_env prepare.database_url;
}

unfoldable pub validate_offline_dir : Paths → Text → Result (Unit {0}) Text
validate_offline_dir p path =
    if is_empty path
    then err (codes "offline directory cannot be empty")
    else if p.is_current path
    then err (codes "offline directory cannot be the current directory")
    else if not (is_some (p.parent path)) && p.has_root path
    then err (codes "offline directory cannot be the filesystem root")
    else ok tt

-- How a step goes on where a Boolean asks for it.
abbrev when : {S : Type 0} → Bool → Io S (Unit {0}) → Io S (Unit {0})
when true act s = act s
when false act s = (ok tt, s)

abbrev unreachable_text : Text
unreachable_text = codes "unbounded suffix search must return a candidate"

-- What `create` does with the second name.
abbrev pub with_backup : Text → Text → Option Text → Result PrepareWorkspace Text
with_backup final staging none = err unreachable_text
with_backup final staging (some backup) =
    ok (record { final_dir = final; staging_dir = staging; backup_dir = backup })

module _ (fs : FileSystem) where
  -- The second half of `commit`, from the outcome of the renaming on; `had` is `had_existing`.
  abbrev pub switched :
      PrepareWorkspace
      → Bool
      → Result (Unit {0}) Text × fs.State
      → Result (Unit {0}) Text × fs.State
  switched w had (ok _, s) = when had (fs.remove_dir_all w.backup_dir) s
  switched w had (err e, s) = (err e, (when had (fs.rename w.backup_dir w.final_dir) s).1)

  abbrev pub set_aside : PrepareWorkspace → Bool → Io fs.State (Unit {0})
  set_aside w had s =
      and_then (λ _ s. switched w had (fs.rename w.staging_dir w.final_dir s))
        (when had (fs.rename w.final_dir w.backup_dir) s)

  unfoldable pub commit : PrepareWorkspace → Io fs.State (Unit {0})
  commit w s =
      and_then (λ _ s. set_aside w (fs.exists s w.final_dir) s)
        (when (fs.exists s w.backup_dir) (fs.remove_dir_all w.backup_dir) s)

  unfoldable pub cleanup : PrepareWorkspace → fs.State → fs.State
  cleanup w s = (fs.remove_dir_all w.staging_dir s).1

  module _ (p : Paths) (pid fuel : ℕ) where
    -- What `create` does with the first name.
    abbrev pub staged : Text → Option Text → Io fs.State PrepareWorkspace
    staged final none s = (err unreachable_text, s)
    staged final (some staging) s =
        and_then
          (λ _ s.
            (with_backup final staging (unique_sibling fs p pid fuel s final (codes "old")), s))
          (described (codes "failed to create staging directory " ++ staging ++ codes ": ")
            (fs.create_dir staging s))

    abbrev pub created : Text → Result (Unit {0}) Text → Io fs.State PrepareWorkspace
    created final (err e) s = (err e, s)
    created final (ok _) s =
        if fs.exists s final && not (fs.is_dir s final)
        then (err (final ++ codes " is not a directory"), s)
        else and_then (λ _ s. staged final (unique_sibling fs p pid fuel s final (codes "tmp")) s)
            (described
              (codes "failed to create parent directory " ++ parent_dir p final ++ codes ": ")
              (fs.create_dir_all (parent_dir p final) s))

    unfoldable pub create : Text → Io fs.State PrepareWorkspace
    unfolding validate_offline_dir unique_sibling
    create final s = created final (validate_offline_dir p final) s

    -- What follows the program, by its exit status, of which the text is known.
    abbrev pub finished :
        Text
        → PrepareWorkspace
        → Result (Bool × Text) Text × fs.State
        → Result (Unit {0}) Text × fs.State
    finished dir w (err e, s) = (err e, s)
    finished dir w (ok (true, _), s) =
        described (codes "failed to replace " ++ dir ++ codes " with prepared metadata: ")
          (commit w s)
    finished dir w (ok (false, status), s) =
        (err (codes "cargo check exited with " ++ status), cleanup w s)

    -- `status` runs the program: whether it succeeds, and its status as text.
    unfoldable pub run_with_program :
        (CommandSpec → Io fs.State (Bool × Text)) → Prepare → Text → Io fs.State (Unit {0})
    unfolding create command_spec commit cleanup
    run_with_program status prepare cargo s =
        and_then
          (λ w s. finished prepare.offline_dir w (
            described (codes "failed to run cargo check: ")
              (status (command_spec prepare cargo w.staging_dir) s)))
          (create prepare.offline_dir s)

    -- `Prepare::run`, with the variable `CARGO`.
    unfoldable pub run :
        (CommandSpec → Io fs.State (Bool × Text)) → Prepare → Option Text → Io fs.State (Unit {0})
    unfolding run_with_program
    run status prepare cargo s = run_with_program status prepare (or_text (codes "cargo") cargo) s
