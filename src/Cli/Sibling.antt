-- ===== src/Cli/Sibling.antt =====
-- crates/sqlx-turso-cli/src/main.rs: `unique_sibling`, which counts up until a name is free. The
-- attempts are an `i32` in the code, so they are these numbers below 2^31.
use sqlx_turso.Base.{ℕ, zero, suc, Bool, true, false, Option, none, some, ◌∷◌, ◌++◌}
use sqlx_turso.Text.{Text, codes}
use sqlx_turso.Text.Decimal.{show_nat}
use sqlx_turso.Cli.{Paths, FileSystem}

-- `unwrap_or`
abbrev pub or_text : Text → Option Text → Text
or_text d none = d
or_text d (some t) = t

abbrev pub parent_dir : Paths → Text → Text
parent_dir p path = or_text (codes ".") (p.parent path)

-- The candidate's name between the dot and the number.
abbrev pub candidate_stem : Paths → ℕ → Text → Text → Text
candidate_stem p pid path suffix =
    or_text (codes "sqlx") (p.file_name path)
    ++ codes "."
    ++ suffix
    ++ codes "-"
    ++ show_nat pid
    ++ codes "-"

abbrev pub candidate : Paths → ℕ → Text → Text → ℕ → Text
candidate p pid path suffix attempt =
    p.join (parent_dir p path) (b'.' ∷ (candidate_stem p pid path suffix ++ show_nat attempt))

abbrev first_free : Text → Bool → Option Text → Option Text
first_free c true rest = rest
first_free c false rest = some c

-- The loop from an attempt on, for at most so many attempts.
unfoldable pub attempts : ℕ → (Text → Bool) → (ℕ → Text) → ℕ → Option Text
attempts zero exists candidate n = none
attempts (suc fuel) exists candidate n =
    first_free (candidate n) (exists (candidate n)) (attempts fuel exists candidate (suc n))

unfoldable pub unique_sibling :
    (fs : FileSystem) → Paths → ℕ → ℕ → fs.State → Text → Text → Option Text
unfolding attempts
unique_sibling fs p pid fuel s path suffix =
    attempts fuel (fs.exists s) (candidate p pid path suffix) 0
