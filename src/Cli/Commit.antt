-- ===== src/Cli/Commit.antt =====
-- What stands where after `commit`, whichever of its steps fails.
use sqlx_turso.Base.{
  Bool-cases, is_some, Result, ok, err, and_then, ◌≡◌, refl, sym, ap, ◌∙◌, ◌⊎◌, inl, inr, Bool,
  true, false, Option, none, some, arith,
}
use sqlx_turso.Text.{Text}
use sqlx_turso.Cli.{FileSystem}
use sqlx_turso.Cli.Prepare.{PrepareWorkspace, switched, set_aside, commit}

-- A view of the file system: what stands at a path, and when neither of two paths lies in the other.
-- The laws are those of a POSIX file system: a failed `rename` changes nothing, and the removal of a
-- directory may fail half way and touches nothing outside of it.
pub record View (fs : FileSystem) : Type 1 where
  pub Tree : Type 0
  pub look : fs.State → Text → Option Tree
  pub Apart : Text → Text → Type 0

pub record IsLawful {fs : FileSystem} (v : View fs) : Type 0 where
  pub exists-look : (s : fs.State) (q : Text) → fs.exists s q ≡ is_some (v.look s q)
  pub rename-moved :
      (s : fs.State) (a b : Text)
      → v.Apart a b
      → (fs.rename a b s).0 ≡ ok tt
      → (v.look (fs.rename a b s).1 b ≡ v.look s a) × (v.look (fs.rename a b s).1 a ≡ none)
  pub rename-kept :
      (s : fs.State) (a b q : Text)
      → v.Apart a q
      → v.Apart b q
      → v.look (fs.rename a b s).1 q ≡ v.look s q
  pub rename-failed :
      (s : fs.State) (a b q e : Text)
      → (fs.rename a b s).0 ≡ err e
      → v.look (fs.rename a b s).1 q ≡ v.look s q
  pub Apart-sym : (a b : Text) → v.Apart a b → v.Apart b a
  pub remove-gone :
      (s : fs.State) (a : Text)
      → (fs.remove_dir_all a s).0 ≡ ok tt
      → v.look (fs.remove_dir_all a s).1 a ≡ none
  pub remove-kept :
      (s : fs.State) (a q : Text) → v.Apart a q → v.look (fs.remove_dir_all a s).1 q ≡ v.look s q

outcome : {S : Type 0} {r t : Result (Unit {0}) Text × S} → r ≡ t → r.0 ≡ t.0
outcome e = ap (λ p. p.0) e

-- The three directories are siblings.
pub record IsApart {fs : FileSystem} (v : View fs) (w : PrepareWorkspace) : Type 0 where
  pub staging-final : v.Apart w.staging_dir w.final_dir
  pub staging-backup : v.Apart w.staging_dir w.backup_dir
  pub final-backup : v.Apart w.final_dir w.backup_dir

-- Where the call succeeds, the prepared tree stands in the final place and nothing in the other two.
-- Where it fails, the old tree stands in the final place, or the prepared one does, or the old one
-- stands in the backup's place.
abbrev pub Settled :
    {fs : FileSystem} (v : View fs)
    → PrepareWorkspace
    → Option v.Tree
    → Option v.Tree
    → Result (Unit {0}) Text × fs.State
    → Type 0
Settled v w old new (ok _, s) =
    (v.look s w.final_dir ≡ new) × (v.look s w.staging_dir ≡ none) × (v.look s w.backup_dir ≡ none)
Settled v w old new (err _, s) =
    (v.look s w.final_dir ≡ old) ⊎ ((v.look s w.final_dir ≡ new) ⊎ (v.look s w.backup_dir ≡ old))

module _ {fs : FileSystem} (v : View fs) (laws : IsLawful v) (w : PrepareWorkspace)
    (apart : IsApart v w) where
  backup-final : v.Apart w.backup_dir w.final_dir
  backup-final = laws.Apart-sym w.final_dir w.backup_dir apart.final-backup

  backup-staging : v.Apart w.backup_dir w.staging_dir
  backup-staging = laws.Apart-sym w.staging_dir w.backup_dir apart.staging-backup

  final-staging : v.Apart w.final_dir w.staging_dir
  final-staging = laws.Apart-sym w.staging_dir w.final_dir apart.staging-final

  seen : (q : Text) {r t : Result (Unit {0}) Text × fs.State} → r ≡ t → v.look t.1 q ≡ v.look r.1 q
  seen q e = ap (λ p. v.look (p.1) q) (sym e)

  -- After the removal of the backup, which is the last step.
  removed :
      (old new : Option v.Tree) (s : fs.State) (r : Result (Unit {0}) Text × fs.State)
      → fs.remove_dir_all w.backup_dir s ≡ r
      → v.look s w.final_dir ≡ new
      → v.look s w.staging_dir ≡ none
      → Settled v w old new r
  removed old new s (ok u, t) e h k = (
    seen w.final_dir e ∙ laws.remove-kept s w.backup_dir w.final_dir backup-final ∙ h,
    seen w.staging_dir e ∙ laws.remove-kept s w.backup_dir w.staging_dir backup-staging ∙ k,
    seen w.backup_dir e ∙ laws.remove-gone s w.backup_dir (outcome e),
  )
  removed old new s (err f, t) e h k =
      inr (inl (seen w.final_dir e ∙ laws.remove-kept s w.backup_dir w.final_dir backup-final ∙ h))

  -- After the old tree is moved back.
  restored :
      (old new : Option v.Tree) (f : Text) (s : fs.State) (r : Result (Unit {0}) Text × fs.State)
      → fs.rename w.backup_dir w.final_dir s ≡ r
      → v.look s w.backup_dir ≡ old
      → Settled v w old new (err f, r.1)
  restored old new f s (ok u, t) e h = inl (
      seen w.final_dir e
      ∙ (laws.rename-moved s w.backup_dir w.final_dir backup-final (outcome e)).0
      ∙ h)
  restored old new f s (err g, t) e h = inr (
      inr (
        seen w.backup_dir e
        ∙ laws.rename-failed s w.backup_dir w.final_dir w.backup_dir g (outcome e)
        ∙ h))

  -- After the prepared tree is moved, where the old one was moved aside before.
  switched_aside :
      (old new : Option v.Tree) (s : fs.State) (r : Result (Unit {0}) Text × fs.State)
      → fs.rename w.staging_dir w.final_dir s ≡ r
      → v.look s w.staging_dir ≡ new
      → v.look s w.backup_dir ≡ old
      → Settled v w old new (switched fs w true r)
  switched_aside old new s (ok u, t) e h k =
      let moved = laws.rename-moved s w.staging_dir w.final_dir apart.staging-final (outcome e) in
      removed old new t (fs.remove_dir_all w.backup_dir t) refl (seen w.final_dir e ∙ moved.0 ∙ h)
        (seen w.staging_dir e ∙ moved.1)
  switched_aside old new s (err f, t) e h k =
      restored old new f t (fs.rename w.backup_dir w.final_dir t) refl (
        seen w.backup_dir e
        ∙ laws.rename-failed s w.staging_dir w.final_dir w.backup_dir f (outcome e)
        ∙ k)

  -- And where there was none.
  switched_fresh :
      (old new : Option v.Tree) (s : fs.State) (r : Result (Unit {0}) Text × fs.State)
      → fs.rename w.staging_dir w.final_dir s ≡ r
      → v.look s w.staging_dir ≡ new
      → v.look s w.final_dir ≡ old
      → v.look s w.backup_dir ≡ none
      → Settled v w old new (switched fs w false r)
  switched_fresh old new s (ok u, t) e h k l =
      let moved = laws.rename-moved s w.staging_dir w.final_dir apart.staging-final (outcome e) in
      (
        seen w.final_dir e ∙ moved.0 ∙ h,
        seen w.staging_dir e ∙ moved.1,
        seen w.backup_dir e
            ∙ laws.rename-kept s w.staging_dir w.final_dir w.backup_dir apart.staging-backup
                apart.final-backup
            ∙ l,
      )
  switched_fresh old new s (err f, t) e h k l = inl (
      seen w.final_dir e
      ∙ laws.rename-failed s w.staging_dir w.final_dir w.final_dir f (outcome e)
      ∙ k)

  -- After the old tree is moved aside.
  set_aside_lem :
      (old new : Option v.Tree) (s : fs.State) (r : Result (Unit {0}) Text × fs.State)
      → fs.rename w.final_dir w.backup_dir s ≡ r
      → v.look s w.staging_dir ≡ new
      → v.look s w.final_dir ≡ old
      → Settled v w old new
          (and_then (λ _ s. switched fs w true (fs.rename w.staging_dir w.final_dir s)) r)
  set_aside_lem old new s (ok u, t) e h k =
      let moved = laws.rename-moved s w.final_dir w.backup_dir apart.final-backup (outcome e) in
      switched_aside old new t (fs.rename w.staging_dir w.final_dir t) refl
        (seen w.staging_dir e
          ∙ laws.rename-kept s w.final_dir w.backup_dir w.staging_dir final-staging backup-staging
          ∙ h)
        (seen w.backup_dir e ∙ moved.0 ∙ k)
  set_aside_lem old new s (err f, t) e h k = inl (
      seen w.final_dir e
      ∙ laws.rename-failed s w.final_dir w.backup_dir w.final_dir f (outcome e)
      ∙ k)

  -- From a state without a backup on, by whether there is an old tree.
  from_clean :
      (old new : Option v.Tree) (s : fs.State) (had : Bool)
      → v.look s w.staging_dir ≡ new
      → v.look s w.final_dir ≡ old
      → v.look s w.backup_dir ≡ none
      → Settled v w old new (set_aside fs w had s)
  from_clean old new s true h k l =
      set_aside_lem old new s (fs.rename w.final_dir w.backup_dir s) refl h k
  from_clean old new s false h k l =
      switched_fresh old new s (fs.rename w.staging_dir w.final_dir s) refl h k l

  -- After a backup that stood there is removed.
  cleared :
      (old new : Option v.Tree) (s : fs.State) (r : Result (Unit {0}) Text × fs.State)
      → fs.remove_dir_all w.backup_dir s ≡ r
      → v.look s w.staging_dir ≡ new
      → v.look s w.final_dir ≡ old
      → Settled v w old new (and_then (λ _ s. set_aside fs w (fs.exists s w.final_dir) s) r)
  cleared old new s (ok u, t) e h k =
      from_clean old new t (fs.exists t w.final_dir)
        (seen w.staging_dir e ∙ laws.remove-kept s w.backup_dir w.staging_dir backup-staging ∙ h)
        (seen w.final_dir e ∙ laws.remove-kept s w.backup_dir w.final_dir backup-final ∙ k)
        (seen w.backup_dir e ∙ laws.remove-gone s w.backup_dir (outcome e))
  cleared old new s (err f, t) e h k =
      inl (seen w.final_dir e ∙ laws.remove-kept s w.backup_dir w.final_dir backup-final ∙ k)

  absent : (o : Option v.Tree) → is_some o ≡ false → o ≡ none
  absent none h = refl
  absent (some t) h = ground arith

  -- `commit` loses no tree, whichever of its steps fails: where it succeeds, the prepared directory
  -- stands in the final place and the other two places are empty; where it fails, the old directory
  -- still stands in its place or in the backup's, or the prepared one has already replaced it.
  pub commit-Settled :
      (s : fs.State) → Settled v w (v.look s w.final_dir) (v.look s w.staging_dir) (commit fs w s)
  unfolding commit
  commit-Settled s = elim (Bool-cases (fs.exists s w.backup_dir)) [
    | inl e ↦ rw e (
        cleared (v.look s w.final_dir) (v.look s w.staging_dir) s (fs.remove_dir_all w.backup_dir s)
          refl refl refl)
    | inr e ↦ rw e (
        from_clean (v.look s w.final_dir) (v.look s w.staging_dir) s (fs.exists s w.final_dir) refl
          refl (absent (v.look s w.backup_dir) (sym (laws.exists-look s w.backup_dir) ∙ e)))
  ]
