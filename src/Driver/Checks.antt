-- ===== src/Driver/Checks.antt =====
-- What the driver opens, and what it refuses.
use sqlx_turso.Base.{Result, ok, err, ◌≡◌, refl, true, false, ◌||◌, arith}
use sqlx_turso.Error.{Error}
use sqlx_turso.Text.{Text}
use sqlx_turso.Options.{TursoConnectOptions}
use sqlx_turso.Options.Settings.{TursoDatabaseTarget, memory, file, is_read_only, is_create}
use sqlx_turso.Driver.{
  validate_pragmas, any_autovacuum, validate_open_support, validate_file_target, build_database,
  open_target, database,
}
use sqlx_turso.Builder.{Builders, Opening, checked}

module _ {Io : Type 0} (B : Builders Io) where
  pub checked-ok :
      {A : Type 0} (r : Result (Unit {0}) Error) (next : Opening B → Result A Error × Opening B)
      → (s t : Opening B) (a : A) → checked B r next s ≡ (ok a, t)
      → r ≡ ok tt
  checked-ok (ok _) next s t a h = refl
  checked-ok (err e) next s t a h = cc

  pub checked-next :
      {A : Type 0} (r : Result (Unit {0}) Error) (next : Opening B → Result A Error × Opening B)
      → (s t : Opening B) (a : A) → checked B r next s ≡ (ok a, t)
      → next s ≡ (ok a, t)
  checked-next (ok _) next s t a h = h
  checked-next (err e) next s t a h = cc

module _ {Io Log : Type 0} (B : Builders Io) where
  pub validate_pragmas-ok :
      (o : TursoConnectOptions Io Log)
      → validate_pragmas o ≡ ok tt
      → any_autovacuum o.pragmas ≡ false
  unfolding validate_pragmas
  validate_pragmas-ok o h = ground arith

  -- What the options and the world must allow for a database to be opened.
  abbrev pub Allowed : TursoConnectOptions Io Log → TursoDatabaseTarget → Opening B → Type 0
  Allowed o (memory _) s = Unit
  Allowed o (file path) s = (is_create o.open_mode || B.exists path s.world) ≡ true

  supported :
      (o : TursoConnectOptions Io Log)
      → validate_open_support o ≡ ok tt
      → (is_read_only o.open_mode ≡ false) × (o.immutable ≡ false)
  unfolding validate_open_support
  supported o h = ground arith

  -- A database is opened only for options that are neither read-only nor immutable, and a file
  -- only where it exists or may be created.
  pub database-Allowed :
      (o : TursoConnectOptions Io Log) (s t : Opening B) (d : B.Database)
      → database B o s ≡ (ok d, t)
      → (is_read_only o.open_mode ≡ false) × (o.immutable ≡ false) × Allowed o o.target s
  unfolding database
  database-Allowed o s t d h =
      let (write, change) =
        supported o (checked-ok B (validate_open_support o) (open_target B o o.target) s t d h) in
      (
        write,
        change,
        target o.target
            (checked-next B (validate_open_support o) (open_target B o o.target) s t d h),
      )
    where
      found :
          (path : Text) → validate_file_target B o path s.world ≡ ok tt → Allowed o (file path) s
      found path e = unfold validate_file_target in ground arith

      target : (g : TursoDatabaseTarget) → open_target B o g s ≡ (ok d, t) → Allowed o g s
      target (memory _) e = tt
      target (file path) e =
          found path
            (checked-ok B (validate_file_target B o path s.world) (build_database B o path) s t d e)
