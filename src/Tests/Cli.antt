-- ===== src/Tests/Cli.antt =====
-- The theorems on the command line tool, over a file system that maps paths to trees.
use sqlx_turso.Base.{
  if◌then◌else◌, Bool-cases, is_some, ok, err, ℕ, ◌≤◌, ◌≡◌, refl, sym, ◌⊎◌, inl, inr, Bool, true,
  false, ◌||◌, Option, none, some, [], ◌∷◌, arith,
}
use sqlx_turso.Text.{Text, codes, text_eq}
use sqlx_turso.Text.Decimal.{show_digits, show_nat}
use sqlx_turso.Text.Laws.{text_eq_iff, text_eq_refl}
use sqlx_turso.Cli.{Io, Paths, FileSystem}
use sqlx_turso.Cli.Sibling.{candidate, attempts, unique_sibling}
use sqlx_turso.Cli.Free.{member, unique_sibling-free}
use sqlx_turso.Cli.Prepare.{
  Prepare, CommandSpec, PrepareWorkspace, command_spec, validate_offline_dir, commit, cleanup,
  create, run_with_program,
}
use sqlx_turso.Cli.Commit.{View, IsLawful, IsApart, Settled, commit-Settled}
use sqlx_turso.Cli.Kept.{MakesOnly, run_with_program-kept}
use sqlx_turso.Cli.Prepared.{workspace_of, run_with_program-prepared}

abbrev Disk : Type 0
Disk = Text → Option Text

abbrev put : Text → Option Text → Disk → Disk
put a tree disk q = if text_eq q a then tree else disk q

abbrev moved : Text → Text → Option Text → Io Disk (Unit {0})
moved a b none s = (err (codes "no such directory"), s)
moved a b (some tree) s = (ok tt, put a none (put b (some tree) s))

abbrev gone : Text → Option Text → Io Disk (Unit {0})
gone a none s = (err (codes "no such directory"), s)
gone a (some tree) s = (ok tt, put a none s)

abbrev disks : FileSystem
disks = record {
  State = Disk;
  exists = λ s q. is_some (s q);
  is_dir = λ s q. is_some (s q);
  create_dir_all = λ a s. (ok tt, s);
  create_dir = λ a s. (ok tt, put a (some (codes "empty")) s);
  remove_dir_all = λ a s. gone a (s a) s;
  rename = λ a b s. moved a b (s a) s;
}

abbrev seen : View disks
seen = record { Tree = Text; look = λ s q. s q; Apart = λ a b. text_eq a b ≡ false }

text_eq_sym : (a b : Text) → text_eq a b ≡ false → text_eq b a ≡ false
text_eq_sym a b h = elim (Bool-cases (text_eq b a)) [
  | inl e ↦ absurd (unlike (text_eq a b) ((text_eq_iff a b).1 (sym ((text_eq_iff b a).0 e))) h)
  | inr e ↦ e
]
  where
    unlike : (b : Bool) → b ≡ true → b ≡ false → ⊥
    unlike b h k = ground arith

moved_ok :
    (s : Disk) (a b : Text) (o : Option Text)
    → text_eq a b ≡ false
    → (moved a b o s).0 ≡ ok tt
    → ((moved a b o s).1 b ≡ o) × ((moved a b o s).1 a ≡ none)
moved_ok s a b none apart h = absurd (ground arith)
moved_ok s a b (some tree) apart h =
    (rw (text_eq_sym a b apart, text_eq_refl b) refl, rw (text_eq_refl a) refl)

moved_apart :
    (s : Disk) (a b q : Text) (o : Option Text)
    → text_eq a q ≡ false
    → text_eq b q ≡ false
    → (moved a b o s).1 q ≡ s q
moved_apart s a b q none h k = refl
moved_apart s a b q (some tree) h k = rw (text_eq_sym a q h, text_eq_sym b q k) refl

moved_failed :
    (s : Disk) (a b q e : Text) (o : Option Text)
    → (moved a b o s).0 ≡ err e
    → (moved a b o s).1 q ≡ s q
moved_failed s a b q e none h = refl
moved_failed s a b q e (some tree) h = absurd (ground arith)

gone_ok : (s : Disk) (a : Text) (o : Option Text) → (gone a o s).0 ≡ ok tt → (gone a o s).1 a ≡ none
gone_ok s a none h = absurd (ground arith)
gone_ok s a (some tree) h = rw (text_eq_refl a) refl

gone_apart :
    (s : Disk) (a q : Text) (o : Option Text) → text_eq a q ≡ false → (gone a o s).1 q ≡ s q
gone_apart s a q none h = refl
gone_apart s a q (some tree) h = rw (text_eq_sym a q h) refl

lawful : IsLawful seen
lawful = record {
  exists-look = λ s q. refl;
  rename-moved = λ s a b. moved_ok s a b (s a);
  rename-kept = λ s a b q. moved_apart s a b q (s a);
  rename-failed = λ s a b q e. moved_failed s a b q e (s a);
  Apart-sym = text_eq_sym;
  remove-gone = λ s a. gone_ok s a (s a);
  remove-kept = λ s a q. gone_apart s a q (s a);
}

-- One directory below the root, with an old tree in its place.
abbrev paths : Paths
paths = record {
  parent = λ _. some [];
  file_name = λ q. some q;
  join = λ d q. q;
  is_current = λ q. text_eq q (codes ".");
  has_root = λ _. false;
}

abbrev place : PrepareWorkspace
place = record { final_dir = codes "f"; staging_dir = codes "s"; backup_dir = codes "b" }

abbrev start : Disk
start = put (codes "f") (some (codes "old")) (put (codes "s") (some (codes "new")) (λ _. none))

apart : IsApart seen place
unfolding text_eq
apart = record { staging-final = refl; staging-backup = refl; final-backup = refl }

commit-Settled_example :
    Settled seen place (start (codes "f")) (start (codes "s")) (commit disks place start)
commit-Settled_example = commit-Settled seen lawful place apart start

only_old : (q : Text) → disks.exists start q ≡ true → member q (codes "f" ∷ codes "s" ∷ []) ≡ true
only_old q h = taken (text_eq q (codes "f")) (text_eq q (codes "s")) h
  where
    taken :
        (a b : Bool)
        → is_some (if a then some (codes "old") else if b then some (codes "new") else none) ≡ true
        → (a || (b || false)) ≡ true
    taken a b h = ground arith

unique_sibling-free_example :
    (n : ℕ) × (n ≤ 2)
    × (unique_sibling disks paths 7 3 start (codes "f") (codes "tmp")
        ≡ some (candidate paths 7 (codes "f") (codes "tmp") n))
    × (disks.exists start (candidate paths 7 (codes "f") (codes "tmp") n) ≡ false)
unique_sibling-free_example =
    unique_sibling-free disks paths 7 3 start (codes "f") (codes "tmp") (codes "f" ∷ codes "s" ∷ [])
      only_old (λ a b h. h) (omega arith)

abbrev check : CommandSpec → Io Disk (Bool × Text)
check spec s = (ok (true, []), s)

abbrev request : Prepare
request = record { database_url = none; offline_dir = codes "f"; cargo_args = [] }

names_IsApart : (n k : ℕ) → IsApart seen (workspace_of paths 7 (codes "f") n k)
unfolding text_eq
names_IsApart n k = record { staging-final = refl; staging-backup = refl; final-backup = refl }

run_with_program-prepared_example :
    let t = (run_with_program disks paths 7 3 check request (codes "cargo") start).1 in
    (n : ℕ) × (k : ℕ) × (s1 : Disk) × (text : Text) × (s2 : Disk) × (create disks paths 7 3
        (codes "f")
        start
      ≡ (ok (workspace_of paths 7 (codes "f") n k), s1))
    × (check
          (command_spec request (codes "cargo") (workspace_of paths 7 (codes "f") n k).staging_dir)
          s1
        ≡ (ok (true, text), s2))
    × (t (codes "f") ≡ s2 (workspace_of paths 7 (codes "f") n k).staging_dir)
    × (t (workspace_of paths 7 (codes "f") n k).staging_dir ≡ none)
    × (t (workspace_of paths 7 (codes "f") n k).backup_dir ≡ none)
unfolding run_with_program create command_spec commit validate_offline_dir unique_sibling attempts
    text_eq show_nat show_digits
run_with_program-prepared_example =
    run_with_program-prepared disks paths 7 3 seen lawful check request (codes "cargo")
      names_IsApart start (run_with_program disks paths 7 3 check request (codes "cargo") start).1
      refl

makes_only : MakesOnly seen paths
makes_only = record {
  create_dir-kept = λ s a q h. rw (text_eq_sym a q h) refl;
  create_dir_all-kept = λ s q. refl;
}

abbrev failing : CommandSpec → Io Disk (Bool × Text)
failing spec s = (ok (false, codes "exit status: 101"), s)

run_with_program-kept_example :
    let t = (run_with_program disks paths 7 3 failing request (codes "cargo") start).1 in
    (t (codes "f") ≡ start (codes "f"))
    ⊎ ((w : PrepareWorkspace) × (s1 : Disk) × (text : Text) × (s2 : Disk) × (create disks paths 7 3
            (codes "f")
            start
          ≡ (ok w, s1))
        × (failing (command_spec request (codes "cargo") w.staging_dir) s1 ≡ (ok (true, text), s2))
        × ((t (codes "f") ≡ s2 w.staging_dir) ⊎ (t w.backup_dir ≡ start (codes "f"))))
unfolding run_with_program create command_spec commit cleanup validate_offline_dir unique_sibling
    attempts text_eq show_nat show_digits
run_with_program-kept_example =
    run_with_program-kept disks paths 7 3 seen makes_only lawful failing request (codes "cargo")
      names_IsApart (λ spec s. refl) start
      (run_with_program disks paths 7 3 failing request (codes "cargo") start).1
      (codes "cargo check exited with exit status: 101") refl
