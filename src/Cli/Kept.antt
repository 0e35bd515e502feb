-- ===== src/Cli/Kept.antt =====
-- crates/sqlx-turso-cli/src/main.rs: where a run of `prepare` that fails leaves the metadata that stood
-- in the offline directory.
use sqlx_turso.Base.{
  Bool-cases, Result, ok, err, and_then, ℕ, ◌≡◌, refl, sym, ap, subst, ◌∙◌, ◌⊎◌, inl, inr, Bool,
  true, false, not, ◌&&◌, Option, none, some, ◌++◌, arith,
}
use sqlx_turso.Text.{Text, codes}
use sqlx_turso.Cli.{Io, described, Paths, FileSystem}
use sqlx_turso.Cli.Sibling.{parent_dir, candidate, unique_sibling}
use sqlx_turso.Cli.Prepare.{
  Prepare, CommandSpec, PrepareWorkspace, command_spec, validate_offline_dir, with_backup, commit,
  cleanup, staged, created, create, finished, run_with_program,
}
use sqlx_turso.Cli.Commit.{View, IsLawful, IsApart, Settled, commit-Settled}
use sqlx_turso.Cli.Runs.{described-ok}
use sqlx_turso.Cli.Prepared.{workspace_of, sibling-candidate, create-workspace}

-- Making a directory changes nothing apart from it, and making the parent of a path nothing at it.
pub record MakesOnly {fs : FileSystem} (v : View fs) (p : Paths) : Type 0 where
  pub create_dir-kept :
      (s : fs.State) (a q : Text) → v.Apart a q → v.look (fs.create_dir a s).1 q ≡ v.look s q
  pub create_dir_all-kept :
      (s : fs.State) (q : Text) → v.look (fs.create_dir_all (parent_dir p q) s).1 q ≡ v.look s q

-- What holds behind both steps, where the first keeps it and the second does.
steps_keep :
    {A B S : Type 0} (P : S → Type 0) (f : A → Io S B) (out : Result A Text × S)
    → P out.1
    → ((a : A) (s : S) → out ≡ (ok a, s) → P s → P (f a s).1)
    → P (and_then f out).1
steps_keep P f (ok a, s) h next = next a s refl h
steps_keep P f (err e, s) h next = h

described_keeps :
    {A S : Type 0} (P : S → Type 0) (message : Text) (out : Result A Text × S)
    → P out.1
    → P (described message out).1
described_keeps P message (ok a, s) h = h
described_keeps P message (err e, s) h = h

described-err :
    {A S : Type 0} (message : Text) (out : Result A Text × S) (e : Text) (t : S)
    → described message out ≡ (err e, t)
    → (f : Text) × (out ≡ (err f, t))
described-err message (ok a, s) e t h = absurd (ground arith)
described-err message (err f, s) e t h = (f, ap (λ r. (err f, r)) (ap (λ r. r.1) h))

module _ (fs : FileSystem) (p : Paths) (pid fuel : ℕ) (v : View fs) (makes : MakesOnly v p) where
  staged-kept :
      (dir : Text) (o : Option Text) (s : fs.State)
      → ((c : Text) → o ≡ some c → v.Apart c dir)
      → v.look (staged fs p pid fuel dir o s).1 dir ≡ v.look s dir
  staged-kept dir none s apart = refl
  staged-kept dir (some c) s apart =
      steps_keep (λ t. v.look t dir ≡ v.look s dir)
        (λ _ s. (with_backup dir c (unique_sibling fs p pid fuel s dir (codes "old")), s))
        (described (codes "failed to create staging directory " ++ c ++ codes ": ")
          (fs.create_dir c s))
        (described_keeps (λ t. v.look t dir ≡ v.look s dir)
          (codes "failed to create staging directory " ++ c ++ codes ": ") (fs.create_dir c s)
          (makes.create_dir-kept s c dir (apart c refl)))
        (λ a t e h. h)

  created-kept :
      (dir : Text) (valid : Result (Unit {0}) Text) (s : fs.State)
      → ((n : ℕ) → v.Apart (candidate p pid dir (codes "tmp") n) dir)
      → v.look (created fs p pid fuel dir valid s).1 dir ≡ v.look s dir
  created-kept dir (err e) s apart = refl
  created-kept dir (ok u) s apart = elim (Bool-cases (fs.exists s dir && not (fs.is_dir s dir))) [
    | inl e ↦ rw e refl
    | inr e ↦ rw e (
        steps_keep (λ t. v.look t dir ≡ v.look s dir)
          (λ _ s. staged fs p pid fuel dir (unique_sibling fs p pid fuel s dir (codes "tmp")) s)
          (described (codes "failed to create parent directory " ++ parent_dir p dir ++ codes ": ")
            (fs.create_dir_all (parent_dir p dir) s))
          (described_keeps (λ t. v.look t dir ≡ v.look s dir)
            (codes "failed to create parent directory " ++ parent_dir p dir ++ codes ": ")
            (fs.create_dir_all (parent_dir p dir) s) (makes.create_dir_all-kept s dir))
          (λ a t k h.
            staged-kept dir (unique_sibling fs p pid fuel t dir (codes "tmp")) t (named t) ∙ h))
  ]
    where
      named :
          (t : fs.State) (c : Text)
          → unique_sibling fs p pid fuel t dir (codes "tmp") ≡ some c
          → v.Apart c dir
      named t c h =
          let found = sibling-candidate fs p pid fuel t dir (codes "tmp") c h in
          subst (λ c. v.Apart c dir) (sym found.1) (apart found.0)

  create-kept :
      (dir : Text) (s : fs.State)
      → ((n : ℕ) → v.Apart (candidate p pid dir (codes "tmp") n) dir)
      → v.look (create fs p pid fuel dir s).1 dir ≡ v.look s dir
  unfolding create
  create-kept dir s apart = created-kept dir (validate_offline_dir p dir) s apart

  -- What a failed run leaves of the tree that stood in the final place.
  abbrev Survives : PrepareWorkspace → Option v.Tree → Option v.Tree → fs.State → Type 0
  Survives w old new t = (v.look t w.final_dir ≡ new) ⊎ (v.look t w.backup_dir ≡ old)

  Settled-err :
      (w : PrepareWorkspace) (old new : Option v.Tree) (e : Text)
      (r : Result (Unit {0}) Text × fs.State) (t : fs.State)
      → r ≡ (err e, t)
      → Settled v w old new r
      → (v.look t w.final_dir ≡ old) ⊎ Survives w old new t
  Settled-err w old new e r t h = subst (Settled v w old new) h

  module _ (laws : IsLawful v) where
    finished-kept :
        (dir : Text) (w : PrepareWorkspace) (old : Option v.Tree)
        (r : Result (Bool × Text) Text × fs.State) (e : Text) (t : fs.State)
        → IsApart v w
        → v.look r.1 w.final_dir ≡ old
        → finished fs p pid fuel dir w r ≡ (err e, t)
        → (v.look t w.final_dir ≡ old)
          ⊎ ((text : Text) × (s2 : fs.State) × (r ≡ (ok (true, text), s2))
              × Survives w old (v.look s2 w.staging_dir) t)
    unfolding cleanup
    finished-kept dir w old (err f, s2) e t apart k h =
        inl (ap (λ r. v.look (r.1) w.final_dir) (sym h) ∙ k)
    finished-kept dir w old (ok (false, text), s2) e t apart k h = inl (
        ap (λ r. v.look (r.1) w.final_dir) (sym h)
        ∙ laws.remove-kept s2 w.staging_dir w.final_dir apart.staging-final
        ∙ k)
    finished-kept dir w old (ok (true, text), s2) e t apart k h =
        let refused =
          described-err (codes "failed to replace " ++ dir ++ codes " with prepared metadata: ")
            (commit fs w s2) e t h in
        elim (Settled-err w (v.look s2 w.final_dir) (v.look s2 w.staging_dir) refused.0
          (commit fs w s2) t refused.1 (commit-Settled v laws w apart s2)) [
            | inl a ↦ inl (a ∙ k)
            | inr (inl b) ↦ inr (text, s2, refl, inl b)
            | inr (inr c) ↦ inr (text, s2, refl, inr (c ∙ k))
          ]

    -- On a lawful view of the file system, where making a directory changes nothing apart from it,
    -- the names tried for the staging and the backup directory lie apart, and the program leaves the
    -- offline directory alone, a run that fails leaves the tree of the offline directory in its
    -- place; or the program has ended with success, and what it left in the staging directory stands
    -- there, or the old tree stands in the backup directory.
    pub run_with_program-kept :
        (status : CommandSpec → Io fs.State (Bool × Text)) (prepare : Prepare) (cargo : Text)
        → ((n k : ℕ) → IsApart v (workspace_of p pid prepare.offline_dir n k))
        → ((spec : CommandSpec) (s : fs.State)
            → v.look (status spec s).1 prepare.offline_dir ≡ v.look s prepare.offline_dir)
        → (s t : fs.State) (e : Text)
        → run_with_program fs p pid fuel status prepare cargo s ≡ (err e, t)
        → (v.look t prepare.offline_dir ≡ v.look s prepare.offline_dir)
          ⊎ ((w : PrepareWorkspace) × (s1 : fs.State) × (text : Text) × (s2 : fs.State) × (create fs
                  p pid fuel prepare.offline_dir s
                ≡ (ok w, s1))
              × (status (command_spec prepare cargo w.staging_dir) s1 ≡ (ok (true, text), s2))
              × ((v.look t prepare.offline_dir ≡ v.look s2 w.staging_dir)
                  ⊎ (v.look t w.backup_dir ≡ v.look s prepare.offline_dir)))
    unfolding run_with_program
    run_with_program-kept status prepare cargo apart keeps s t e h =
        after (create fs p pid fuel dir s) refl h
      where
        dir : Text
        dir = prepare.offline_dir

        message : Text
        message = codes "failed to run cargo check: "

        call : PrepareWorkspace → Io fs.State (Bool × Text)
        call w s = status (command_spec prepare cargo w.staging_dir) s

        kept : v.look (create fs p pid fuel dir s).1 dir ≡ v.look s dir
        kept = create-kept dir s (λ n. (apart n 0).staging-final)

        Left : Type 0
        Left =
            (v.look t dir ≡ v.look s dir)
            ⊎ ((w : PrepareWorkspace) × (s1 : fs.State) × (text : Text) × (s2 : fs.State) × (create
                    fs p pid fuel dir s
                  ≡ (ok w, s1))
                × (call w s1 ≡ (ok (true, text), s2))
                × ((v.look t dir ≡ v.look s2 w.staging_dir)
                    ⊎ (v.look t w.backup_dir ≡ v.look s dir)))

        after :
            (r : Result PrepareWorkspace Text × fs.State)
            → create fs p pid fuel dir s ≡ r
            → and_then (λ w s. finished fs p pid fuel dir w (described message (call w s))) r
              ≡ (err e, t)
            → Left
        after (err f, s1) c k =
            inl (ap (λ r. v.look (r.1) dir) (sym k) ∙ ap (λ r. v.look (r.1) dir) (sym c) ∙ kept)
        after (ok w, s1) c k =
            let made = create-workspace fs p pid fuel dir s s1 w c in
            let place = ap (λ w. w.final_dir) made.2 in
            let before =
              described_keeps (λ x. v.look x dir ≡ v.look s dir) message (call w s1)
                (keeps (command_spec prepare cargo w.staging_dir) s1
                  ∙ ap (λ r. v.look (r.1) dir) (sym c)
                  ∙ kept) in
            let ran = described message (call w s1) in
            elim (finished-kept dir w (v.look s dir) ran e t
              (subst (IsApart v) (sym made.2) (apart made.0 made.1))
              (ap (v.look ran.1) place ∙ before) k) [
                | inl a ↦ inl (ap (v.look t) (sym place) ∙ a)
                | inr (text, s2, q, x) ↦ inr (
                  w,
                  s1,
                  text,
                  s2,
                  c,
                  described-ok message (call w s1) (true, text) s2 q,
                  elim x [ inl b ↦ inl (ap (v.look t) (sym place) ∙ b) | inr b ↦ inr b ],
                )
              ]
