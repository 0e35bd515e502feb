-- ===== src/Cli/Runs.antt =====
-- What a run of `prepare` that succeeds has done.
use sqlx_turso.Base.{Result, ok, err, and_then-ok, ℕ, ◌≡◌, refl, ap, Bool, true, false, ◌++◌, arith}
use sqlx_turso.Text.{Text, codes}
use sqlx_turso.Cli.{Io, described, Paths, FileSystem}
use sqlx_turso.Cli.Prepare.{
  Prepare, CommandSpec, PrepareWorkspace, command_spec, commit, create, finished, run_with_program,
}

pub err-ok : {A : Type 0} {e : Text} {a : A} → err e ≡ ok a → ⊥
err-ok h = ground arith

abbrev pub outcome_of : {S A : Type 0} → Result A Text × S → Result A Text
outcome_of r = r.0

pub failed :
    {S A : Type 0} {e : Text} {a : A} {s t : S}
    → ◌≡◌ {A = Result A Text × S} (err e, s) (ok a, t)
    → ⊥
failed h = err-ok (ap outcome_of h)

pub described-ok :
    {S A : Type 0} (message : Text) (r : Result A Text × S) (a : A) (t : S)
    → described message r ≡ (ok a, t)
    → r ≡ (ok a, t)
described-ok message (ok b, s) a t h = h
described-ok message (err e, s) a t h = absurd (failed h)

module _ (fs : FileSystem) (p : Paths) (pid fuel : ℕ) where
  -- Only the success of the program goes on to `commit`.
  finished-ok :
      (dir : Text) (w : PrepareWorkspace) (r : Result (Bool × Text) Text × fs.State) (t : fs.State)
      → finished fs p pid fuel dir w r ≡ (ok tt, t)
      → (text : Text) × (s : fs.State) × (r ≡ (ok (true, text), s)) × (commit fs w s ≡ (ok tt, t))
  finished-ok dir w (ok (true, text), s) t h = (
    text,
    s,
    refl,
    described-ok (codes "failed to replace " ++ dir ++ codes " with prepared metadata: ")
        (commit fs w s) tt t h,
  )
  finished-ok dir w (ok (false, text), s) t h = absurd (failed h)
  finished-ok dir w (err e, s) t h = absurd (failed h)

  -- A run that succeeds has made a workspace for the offline directory, has then run the program on
  -- that workspace's staging directory, which ended with success, and has then committed the
  -- workspace.
  pub run_with_program-ok :
      (status : CommandSpec → Io fs.State (Bool × Text)) (prepare : Prepare) (cargo : Text)
      → (s t : fs.State) → run_with_program fs p pid fuel status prepare cargo s ≡ (ok tt, t)
      → (w : PrepareWorkspace) × (s1 : fs.State) × (text : Text) × (s2 : fs.State) × (create fs p
            pid fuel prepare.offline_dir s
          ≡ (ok w, s1))
        × (status (command_spec prepare cargo w.staging_dir) s1 ≡ (ok (true, text), s2))
        × (commit fs w s2 ≡ (ok tt, t))
  unfolding run_with_program
  run_with_program-ok status prepare cargo s t h =
      let made =
        and_then-ok
          (λ w s. finished fs p pid fuel prepare.offline_dir w (
            described (codes "failed to run cargo check: ")
              (status (command_spec prepare cargo w.staging_dir) s)))
          (create fs p pid fuel prepare.offline_dir s) tt t h in
      let done =
        finished-ok prepare.offline_dir made.0
          (described (codes "failed to run cargo check: ")
            (status (command_spec prepare cargo (made.0).staging_dir) made.1))
          t made.3 in
      (
        made.0,
        made.1,
        done.0,
        done.1,
        made.2,
        described-ok (codes "failed to run cargo check: ")
            (status (command_spec prepare cargo (made.0).staging_dir) made.1) (true, done.0) done.1
            done.2,
        done.3,
      )
