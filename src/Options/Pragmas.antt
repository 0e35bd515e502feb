-- ===== src/Options/Pragmas.antt =====
-- The pragmas of the options are a list of names and values in the order of their execution.
use sqlx_turso.Base.{
  if◌then◌else◌, ◌≡◌, refl, Bool, true, false, ◌||◌, Option, none, some, List, [], ◌∷◌, ◌++◌, arith,
  ap,
}
use sqlx_turso.Text.{Text, codes, text_eq, eq_ignore_ascii_case}
use sqlx_turso.Text.Laws.{text_eq_iff}
use sqlx_turso.Options.{
  TursoConnectOptions, set_pragma, find_pragma, trim_start_quotes, trim_end_quotes, is_mvcc, pragma,
  mvcc, get_mvcc,
}

-- After a pragma has been set, it is found with the new value, and every other pragma is found
-- with the value that it had.
find_pragma-set_pragma :
    (key other : Text) (value : Option Text) (pragmas : List (Text × Option Text))
    → find_pragma other (set_pragma key value pragmas)
      ≡ (if text_eq key other then some (key, value) else find_pragma other pragmas)
unfolding find_pragma set_pragma
find_pragma-set_pragma key other value [] = refl
find_pragma-set_pragma key other value ((name, old) ∷ rest) = ground (
  arith,
  text_eq_iff key other,
  text_eq_iff name key,
  text_eq_iff name other,
  find_pragma-set_pragma key other value rest,
)

abbrev pub has_name : Text → List (Text × Option Text) → Bool
has_name key [] = false
has_name key ((name, _) ∷ rest) = text_eq name key || has_name key rest

abbrev pub names : List (Text × Option Text) → List Text
names [] = []
names ((name, _) ∷ rest) = name ∷ names rest

-- Setting a pragma keeps the names and their order: a new name comes last.
pub names-set_pragma :
    (key : Text) (value : Option Text) (pragmas : List (Text × Option Text))
    → names (set_pragma key value pragmas)
      ≡ (if has_name key pragmas then names pragmas else names pragmas ++ key ∷ [])
unfolding set_pragma
names-set_pragma key value [] = refl
names-set_pragma key value ((name, old) ∷ rest) = ground (arith, names-set_pragma key value rest)

abbrev journal_mode : Text
journal_mode = codes "journal_mode"

module _ {Io Log : Type 0} where
  -- `get_mvcc` says what `mvcc` was last told, whatever pragmas were there before.
  get_mvcc-mvcc : (b : Bool) (o : TursoConnectOptions Io Log) → get_mvcc (mvcc b o) ≡ b
  unfolding get_mvcc mvcc pragma text_eq is_mvcc trim_start_quotes trim_end_quotes
      eq_ignore_ascii_case
  get_mvcc-mvcc true o =
      ap is_mvcc
        (find_pragma-set_pragma journal_mode journal_mode (some (codes "'mvcc'")) o.pragmas)
  get_mvcc-mvcc false o =
      ap is_mvcc (find_pragma-set_pragma journal_mode journal_mode none o.pragmas)
