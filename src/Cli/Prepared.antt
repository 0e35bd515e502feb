-- ===== src/Cli/Prepared.antt =====
-- crates/sqlx-turso-cli/src/main.rs: a run of `prepare` as a whole, `create` to `commit`, by what stands
-- at its three directories.
use sqlx_turso.Base.{
  Bool-cases, Result, ok, err, and_then-ok, ℕ, zero, suc, ◌≡◌, refl, ap, subst, ◌∙◌, inl, inr, Bool,
  true, not, ◌&&◌, Option, none, some, ◌++◌, arith,
}
use sqlx_turso.Text.{Text, codes}
use sqlx_turso.Cli.{Io, described, Paths, FileSystem}
use sqlx_turso.Cli.Sibling.{parent_dir, candidate, attempts, unique_sibling}
use sqlx_turso.Cli.Prepare.{
  Prepare, CommandSpec, PrepareWorkspace, command_spec, validate_offline_dir, with_backup, commit,
  staged, created, create, run_with_program,
}
use sqlx_turso.Cli.Commit.{View, IsLawful, IsApart, Settled, commit-Settled}
use sqlx_turso.Cli.Runs.{err-ok, outcome_of, failed, run_with_program-ok}

-- What the loop finds is one of the candidates.
attempts-candidate :
    (fuel : ℕ) (exists : Text → Bool) (f : ℕ → Text) (n : ℕ) (c : Text)
    → attempts fuel exists f n ≡ some c
    → (j : ℕ) × (c ≡ f j)
unfolding attempts
attempts-candidate zero exists f n c h = absurd (ground arith)
attempts-candidate (suc fuel) exists f n c h = elim (Bool-cases (exists (f n))) [
  | inl e ↦ attempts-candidate fuel exists f (suc n) c (rw e at h)
  | inr e ↦ (n, found (f n) c (rw e at h))
]
  where
    found : (x c : Text) → some x ≡ some c → c ≡ x
    found x c h = ground arith

-- The workspace of a directory with two of its candidates.
abbrev pub workspace_of : Paths → ℕ → Text → ℕ → ℕ → PrepareWorkspace
workspace_of p pid dir n k = record {
  final_dir = dir;
  staging_dir = candidate p pid dir (codes "tmp") n;
  backup_dir = candidate p pid dir (codes "old") k;
}

abbrev with_dirs : Text → Text → Text → PrepareWorkspace
with_dirs dir c b = record { final_dir = dir; staging_dir = c; backup_dir = b }

ok_inj : {A : Type 0} (a b : A) → ◌≡◌ {A = Result A Text} (ok a) (ok b) → b ≡ a
ok_inj a b h = ground arith

module _ (fs : FileSystem) (p : Paths) (pid fuel : ℕ) where
  with_backup-candidate :
      (dir staging : Text) (o : Option Text) (w : PrepareWorkspace)
      → ((c : Text) → o ≡ some c → (j : ℕ) × (c ≡ candidate p pid dir (codes "old") j))
      → with_backup dir staging o ≡ ok w
      → (k : ℕ) × (w ≡ with_dirs dir staging (candidate p pid dir (codes "old") k))
  with_backup-candidate dir staging none w f h = absurd (err-ok h)
  with_backup-candidate dir staging (some c) w f h =
      let found = f c refl in
      (found.0, ok_inj (with_dirs dir staging c) w h ∙ ap (with_dirs dir staging) found.1)

  pub sibling-candidate :
      (s : fs.State) (dir suffix c : Text)
      → unique_sibling fs p pid fuel s dir suffix ≡ some c
      → (j : ℕ) × (c ≡ candidate p pid dir suffix j)
  unfolding unique_sibling
  sibling-candidate s dir suffix c h =
      attempts-candidate fuel (fs.exists s) (candidate p pid dir suffix) 0 c h

  staged-workspace :
      (dir : Text) (o : Option Text) (s s1 : fs.State) (w : PrepareWorkspace)
      → ((c : Text) → o ≡ some c → (j : ℕ) × (c ≡ candidate p pid dir (codes "tmp") j))
      → staged fs p pid fuel dir o s ≡ (ok w, s1)
      → (n : ℕ) × (k : ℕ) × (w ≡ workspace_of p pid dir n k)
  staged-workspace dir none s s1 w f h = absurd (failed h)
  staged-workspace dir (some c) s s1 w f h =
      let made =
        and_then-ok
          (λ _ s. (with_backup dir c (unique_sibling fs p pid fuel s dir (codes "old")), s))
          (described (codes "failed to create staging directory " ++ c ++ codes ": ")
            (fs.create_dir c s))
          w s1 h in
      let named = f c refl in
      let behind =
        with_backup-candidate dir c (unique_sibling fs p pid fuel made.1 dir (codes "old")) w
          (λ b e. sibling-candidate made.1 dir (codes "old") b e) (ap outcome_of made.3) in
      (
        named.0,
        behind.0,
        behind.1 ∙ ap (λ c. with_dirs dir c (candidate p pid dir (codes "old") behind.0)) named.1,
      )

  created-workspace :
      (dir : Text) (valid : Result (Unit {0}) Text) (s s1 : fs.State) (w : PrepareWorkspace)
      → created fs p pid fuel dir valid s ≡ (ok w, s1)
      → (n : ℕ) × (k : ℕ) × (w ≡ workspace_of p pid dir n k)
  created-workspace dir (err e) s s1 w h = absurd (failed h)
  created-workspace dir (ok u) s s1 w h =
      elim (Bool-cases (fs.exists s dir && not (fs.is_dir s dir))) [
        | inl e ↦ absurd (failed (rw e at h))
        | inr e ↦
            let made =
              and_then-ok
                (λ _ s.
                  staged fs p pid fuel dir (unique_sibling fs p pid fuel s dir (codes "tmp")) s)
                (described
                  (codes "failed to create parent directory " ++ parent_dir p dir ++ codes ": ")
                  (fs.create_dir_all (parent_dir p dir) s))
                w s1 (rw e at h) in
            staged-workspace dir (unique_sibling fs p pid fuel made.1 dir (codes "tmp")) made.1 s1 w
              (λ c k. sibling-candidate made.1 dir (codes "tmp") c k) made.3
      ]

  pub create-workspace :
      (dir : Text) (s s1 : fs.State) (w : PrepareWorkspace)
      → create fs p pid fuel dir s ≡ (ok w, s1)
      → (n : ℕ) × (k : ℕ) × (w ≡ workspace_of p pid dir n k)
  unfolding create
  create-workspace dir s s1 w h = created-workspace dir (validate_offline_dir p dir) s s1 w h

  Settled-ok :
      (v : View fs) (w : PrepareWorkspace) (old new : Option v.Tree)
      (r : Result (Unit {0}) Text × fs.State) (t : fs.State)
      → r ≡ (ok tt, t)
      → Settled v w old new r
      → (v.look t w.final_dir ≡ new)
        × (v.look t w.staging_dir ≡ none)
        × (v.look t w.backup_dir ≡ none)
  Settled-ok v w old new r t e h = subst (Settled v w old new) e h

  -- On a lawful view of the file system, in which the names tried for the staging and the backup
  -- directory lie apart from the offline directory and from each other, a run that succeeds has made a
  -- workspace of two such names and has run the program on the first, the program has ended with
  -- success, and what it left there then stands in the offline directory, with nothing at either name.
  pub run_with_program-prepared :
      (v : View fs) (laws : IsLawful v) (status : CommandSpec → Io fs.State (Bool × Text))
      (prepare : Prepare) (cargo : Text)
      → ((n k : ℕ) → IsApart v (workspace_of p pid prepare.offline_dir n k))
      → (s t : fs.State) → run_with_program fs p pid fuel status prepare cargo s ≡ (ok tt, t)
      → (n : ℕ) × (k : ℕ) × (s1 : fs.State) × (text : Text) × (s2 : fs.State) × (create fs p pid
            fuel prepare.offline_dir s
          ≡ (ok (workspace_of p pid prepare.offline_dir n k), s1))
        × (status
              (command_spec prepare cargo (workspace_of p pid prepare.offline_dir n k).staging_dir)
              s1
            ≡ (ok (true, text), s2))
        × (v.look t prepare.offline_dir
            ≡ v.look s2 (workspace_of p pid prepare.offline_dir n k).staging_dir)
        × (v.look t (workspace_of p pid prepare.offline_dir n k).staging_dir ≡ none)
        × (v.look t (workspace_of p pid prepare.offline_dir n k).backup_dir ≡ none)
  run_with_program-prepared v laws status prepare cargo apart s t h =
      let done = run_with_program-ok fs p pid fuel status prepare cargo s t h in
      let made = create-workspace prepare.offline_dir s done.1 done.0 done.4 in
      let place = workspace_of p pid prepare.offline_dir made.0 made.1 in
      let settled =
        Settled-ok v place (v.look done.3 prepare.offline_dir) (v.look done.3 place.staging_dir)
          (commit fs place done.3) t (subst (λ w. commit fs w done.3 ≡ (ok tt, t)) made.2 done.6)
          (commit-Settled v laws place (apart made.0 made.1) done.3) in
      (
        made.0,
        made.1,
        done.1,
        done.2,
        done.3,
        subst (λ w. create fs p pid fuel prepare.offline_dir s ≡ (ok w, done.1)) made.2 done.4,
        subst
            (λ w.
              status (command_spec prepare cargo w.staging_dir) done.1
              ≡ (ok (true, done.2), done.3))
            made.2 done.5,
        settled.0,
        settled.1,
        settled.2,
      )
