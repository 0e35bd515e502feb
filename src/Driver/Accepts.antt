-- ===== src/Driver/Accepts.antt =====
-- crates/sqlx-turso-core/src/driver.rs: the options with which a connection may open.
use sqlx_turso.Base.{is_some, ok, and_then-ok, ◌≡◌, false, Option, none, some, arith}
use sqlx_turso.Options.{TursoConnectOptions}
use sqlx_turso.Options.Settings.{TursoDatabaseTarget, memory, file, is_read_only, TursoSyncOptions}
use sqlx_turso.Action.{Action, ◌>>=◌, ◌>>◌, pure}
use sqlx_turso.Driver.{
  validate_pragmas, validate_sync_support, validate_file_target, database, apply_connection_options,
  connect_local, validate_sync_target, build_sync_connection, connect_sync,
}
use sqlx_turso.Builder.{Builders, Opening, on_world, checked}
use sqlx_turso.Driver.Updates.{valued, NoAutovacuum, valued-NoAutovacuum}
use sqlx_turso.Driver.Checks.{
  validate_pragmas-ok, checked-ok, checked-next, Allowed, database-Allowed,
}

module _ {Io Log : Type 0} (B : Builders Io) (o : TursoConnectOptions Io Log) where
  -- A sync connection has no IO of its own.
  abbrev pub FitsSync : Option TursoSyncOptions → Type 0
  FitsSync none = Unit
  FitsSync (some _) = is_some o.custom_io ≡ false

  -- What is asked of the options, and of the world for the file of a database.
  abbrev pub Accepted : Opening B → Type 0
  Accepted s =
      NoAutovacuum (valued o.pragmas)
      × (is_read_only o.open_mode ≡ false)
      × (o.immutable ≡ false)
      × FitsSync o.sync
      × Allowed B o o.target s

  connect_local-Accepted :
      (c : B.Connection) (s t : Opening B)
      → connect_local B o s ≡ (ok c, t)
      → (is_read_only o.open_mode ≡ false) × (o.immutable ≡ false) × Allowed B o o.target s
  connect_local-Accepted c s t h =
      let opened =
        and_then-ok
          (λ d. on_world B (B.connect d) >>= (λ c. apply_connection_options B o c >> pure c))
          (database B o s) c t h in
      database-Allowed B o s opened.1 opened.0 opened.2

  connect_sync-Accepted :
      (y : TursoSyncOptions) (c : B.Connection) (s t : Opening B)
      → connect_sync B o y s ≡ (ok c, t)
      → (is_read_only o.open_mode ≡ false)
        × (o.immutable ≡ false)
        × (is_some o.custom_io ≡ false)
        × Allowed B o o.target s
  unfolding connect_sync
  connect_sync-Accepted y c s t h =
      let support =
        checked-ok B (validate_sync_support o)
          (λ s. checked B (validate_sync_target B o o.target s) (build_sync_connection B o y) s) s t
          c h in
      let target =
        checked-ok B (validate_sync_target B o o.target s) (build_sync_connection B o y) s t c (
          checked-next B (validate_sync_support o)
            (λ s. checked B (validate_sync_target B o o.target s) (build_sync_connection B o y) s) s
            t c h) in
      let (write, change, own) = supported support in (write, change, own, found o.target target)
    where
      supported :
          validate_sync_support o ≡ ok tt
          → (is_read_only o.open_mode ≡ false)
            × (o.immutable ≡ false)
            × (is_some o.custom_io ≡ false)
      supported h = unfold validate_sync_support in ground arith

      found : (g : TursoDatabaseTarget) → validate_sync_target B o g s ≡ ok tt → Allowed B o g s
      found (memory _) h = tt
      found (file path) h = unfold validate_file_target in ground arith

  -- A connection is opened only for options that give `auto_vacuum` no value, are neither read-only
  -- nor immutable and, with sync, have no IO of their own, and a file only where it exists or may be
  -- created.
  pub connect-Accepted :
      (c : B.Connection) (s t : Opening B)
      → sqlx_turso.Driver.connect B o s ≡ (ok c, t)
      → Accepted s
  unfolding sqlx_turso.Driver.connect
  connect-Accepted c s t h =
      let (write, change, own, allowed) =
        by_sync o.sync (checked-next B (validate_pragmas o) (connects o.sync) s t c h) in
      (
        valued-NoAutovacuum o.pragmas
            (validate_pragmas-ok B o (checked-ok B (validate_pragmas o) (connects o.sync) s t c h)),
        write,
        change,
        own,
        allowed,
      )
    where
      connects : Option TursoSyncOptions → Action (Opening B) B.Connection
      connects y = elim y [ some y ↦ connect_sync B o y | none ↦ connect_local B o ]

      by_sync :
          (y : Option TursoSyncOptions)
          → connects y s ≡ (ok c, t)
          → (is_read_only o.open_mode ≡ false)
            × (o.immutable ≡ false)
            × FitsSync y
            × Allowed B o o.target s
      by_sync none k =
          let (write, change, allowed) = connect_local-Accepted c s t k in
          (write, change, tt, allowed)
      by_sync (some y) k = connect_sync-Accepted y c s t k
