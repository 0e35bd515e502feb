-- ===== src/Migrate/Files/Removal.antt =====
-- What removing the files of a database leaves.
use sqlx_turso.Base.{
  All, Result, ok, err, ◌≡◌, refl, sym, ap, subst, ◌∙◌, false, List, [], ◌∷◌, append-nil,
}
use sqlx_turso.Options.{TursoConnectOptions}
use sqlx_turso.Options.Settings.{file}
use sqlx_turso.Options.Url.{UrlCodec, from_str}
use sqlx_turso.Text.{Text}
use sqlx_turso.Migrate.Files.{
  IoError, not_found, other_kind, FileSystem, known_database_files, go_on, remove_files,
  drop_target, target_exists, drop_parsed, exists_parsed, drop_database, database_exists,
}

-- What is asked of the file system: a file that was removed, or was not found, is not there, and
-- removing a file brings no other file back.
pub record Removes (D : FileSystem) : Type 0 where
  pub removed :
      (f : Text) (s : D.State)
      → (D.remove_file f s).0 ≡ ok tt
      → D.exists f (D.remove_file f s).1 ≡ false
  pub absent :
      (f : Text) (s : D.State)
      → (D.remove_file f s).0 ≡ err not_found
      → D.exists f (D.remove_file f s).1 ≡ false
  pub keeps :
      (f g : Text) (s : D.State) → D.exists g s ≡ false → D.exists g (D.remove_file f s).1 ≡ false

module _ (D : FileSystem) (R : Removes D) where
  open R use {removed, absent, keeps}

  -- A file that is not there stays so.
  remove_files-keeps :
      (fs : List Text) (g : Text) (s : D.State)
      → D.exists g s ≡ false
      → D.exists g (remove_files D fs s).1 ≡ false
  unfolding remove_files
  remove_files-keeps [] g s h = h
  remove_files-keeps (f ∷ fs) g s h =
      go (D.remove_file f s) (keeps f g s h) (remove_files-keeps fs g)
    where
      go :
          (out : Result (Unit {0}) IoError × D.State)
          → D.exists g out.1 ≡ false
          → ((t : D.State) → D.exists g t ≡ false → D.exists g (remove_files D fs t).1 ≡ false)
          → D.exists g (go_on D out (λ t. remove_files D fs t)).1 ≡ false
      go (ok _, t) k ih = ih t k
      go (err not_found, t) k ih = ih t k
      go (err (other_kind e), t) k ih = k

  -- Removing files that succeeds leaves none of them there.
  remove_files-absent :
      (fs : List Text) (s t : D.State)
      → remove_files D fs s ≡ (ok tt, t)
      → All (λ f. D.exists f t ≡ false) fs
  unfolding remove_files
  remove_files-absent [] s t h = tt
  remove_files-absent (f ∷ fs) s t h =
      go (D.remove_file f s) (removed f s) (absent f s) h (λ u. remove_files-absent fs u t)
    where
      go :
          (out : Result (Unit {0}) IoError × D.State)
          → (out.0 ≡ ok tt → D.exists f out.1 ≡ false)
          → (out.0 ≡ err not_found → D.exists f out.1 ≡ false)
          → go_on D out (λ u. remove_files D fs u) ≡ (ok tt, t)
          → ((u : D.State) → remove_files D fs u ≡ (ok tt, t) → All (λ g. D.exists g t ≡ false) fs)
          → (D.exists f t ≡ false) × All (λ g. D.exists g t ≡ false) fs
      go (ok _, u) r a e ih =
          (subst (λ p. D.exists f p.1 ≡ false) e (remove_files-keeps fs f u (r refl)), ih u e)
      go (err not_found, u) r a e ih =
          (subst (λ p. D.exists f p.1 ≡ false) e (remove_files-keeps fs f u (a refl)), ih u e)
      go (err (other_kind e'), u) r a e ih = cc

-- After a `drop_database` that succeeds, on a URL of a database file, `database_exists` says no,
-- and none of the known files beside the database is there.
pub drop_database-gone :
    (D : FileSystem) (R : Removes D) (Io Log : Type 0) (codec : UrlCodec) (log : Log)
    (url path : Text)
    → (o : TursoConnectOptions Io Log) (s t : D.State) → from_str codec log 0 url ≡ ok o
    → o.target ≡ file path
    → drop_database D Io Log codec log url s ≡ (ok tt, t)
    → (database_exists D Io Log codec log url t ≡ ok false)
      × All (λ f. D.exists f t ≡ false) (known_database_files path)
unfolding drop_database database_exists
drop_database-gone D R Io Log codec log url path o s t parsed_as is_file dropped = (
  ap (λ r. exists_parsed D Io Log codec log r t) parsed_as
      ∙ ap (λ target. ok (target_exists D target t)) is_file
      ∙ ap ok (subst (λ f. D.exists f t ≡ false) (append-nil path) gone.0),
  gone,
)
  where
    removed_all : remove_files D (known_database_files path) s ≡ (ok tt, t)
    removed_all =
        ap (λ target. drop_target D target s) (sym is_file)
        ∙ ap (λ r. drop_parsed D Io Log codec log r s) (sym parsed_as)
        ∙ dropped

    gone : All (λ f. D.exists f t ≡ false) (known_database_files path)
    gone = remove_files-absent D R (known_database_files path) s t removed_all
