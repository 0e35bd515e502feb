-- ===== src/Driver.antt =====
-- crates/sqlx-turso-core/src/driver.rs: opening the engine's connection for options. The engine's
-- builders, its calls and the file system are parameters.
pub mod Checks
pub mod Updates
pub mod Sent
pub mod Given
pub mod Accepts
pub mod Opens
use sqlx_turso.Base.{
  if◌then◌else◌, is_some, Result, ok, err, ◌/◌, ◌^◌, Bool, false, not, ◌&&◌, ◌||◌, Option, none,
  some, List, [], ◌∷◌, ◌++◌,
}
use sqlx_turso.Text.{Text, codes, eq_ignore_ascii_case}
use sqlx_turso.Text.Decimal.{show_nat}
use sqlx_turso.Error.{EngineError, Error, io, unsupported_sqlx, unsupported_autovacuum}
use sqlx_turso.Action.{Action, ◌>>=◌, ◌>>◌, pure}
use sqlx_turso.Options.{TursoConnectOptions}
use sqlx_turso.Builder.{
  SyncRequest, Builders, local_request, Opening, engine_error, on_world, checked,
}
use sqlx_turso.Options.Features.{index_method, is_enabled}
use sqlx_turso.Options.Settings.{
  TursoDatabaseTarget, memory, file, is_read_only, is_create, is_shared, TursoSyncOptions,
}

abbrev sets_autovacuum : Text × Option Text → Bool
sets_autovacuum (name, value) = eq_ignore_ascii_case name (codes "auto_vacuum") && is_some value

-- `any`
unfoldable pub any_autovacuum : List (Text × Option Text) → Bool
unfolding eq_ignore_ascii_case
any_autovacuum [] = false
any_autovacuum (p ∷ ps) = sets_autovacuum p || any_autovacuum ps

module _ {Io Log : Type 0} where
  unfoldable pub validate_pragmas : TursoConnectOptions Io Log → Result (Unit {0}) Error
  unfolding any_autovacuum
  validate_pragmas o = if any_autovacuum o.pragmas then err unsupported_autovacuum else ok tt

  unfoldable pub validate_open_support : TursoConnectOptions Io Log → Result (Unit {0}) Error
  validate_open_support o =
      if is_read_only o.open_mode
      then err (unsupported_sqlx (codes "read-only Turso connections"))
      else if o.immutable
      then err (unsupported_sqlx (codes "immutable Turso connections"))
      else ok tt

  -- The checks of `connect_sync` in front of the path.
  unfoldable pub validate_sync_support : TursoConnectOptions Io Log → Result (Unit {0}) Error
  validate_sync_support o =
      if is_read_only o.open_mode
      then err (unsupported_sqlx (codes "read-only Turso sync connections"))
      else if o.immutable
      then err (unsupported_sqlx (codes "immutable Turso sync connections"))
      else if is_some o.custom_io
      then err (unsupported_sqlx (codes "custom IO Turso sync connections"))
      else ok tt

module _ {Io : Type 0} (B : Builders Io) where
  -- The loop over the pragmas: those that have a value, in their order.
  unfoldable pub update_pragmas :
      List (Text × Option Text) → B.Connection → B.World → Result (Unit {0}) EngineError × B.World
  update_pragmas [] c w = (ok tt, w)
  update_pragmas ((key, none) ∷ ps) c w = update_pragmas ps c w
  update_pragmas ((key, some value) ∷ ps) c w =
      let (answer, w1) = B.pragma_update key value c w in
      let later = update_pragmas ps c w1 in elim answer [ ok _ ↦ later | err e ↦ (err e, w1) ]

  -- What is kept of a database that was created for the cell.
  abbrev pub keep_created :
      Result B.Database Error × Opening B → Result B.Database Error × Opening B
  keep_created (ok d, s) = (ok d, record s { cell = some d })
  keep_created (err e, s) = (err e, s)

module _ {Io Log : Type 0} (B : Builders Io) where
  unfoldable pub validate_file_target :
      TursoConnectOptions Io Log → Text → B.World → Result (Unit {0}) Error
  validate_file_target o path w =
      if is_create o.open_mode || B.exists path w
      then ok tt
      else err (io (codes "database file " ++ (path ++ codes " does not exist")))

  -- `build_database`
  abbrev pub build_database :
      TursoConnectOptions Io Log → Text → Opening B → Result B.Database Error × Opening B
  build_database o path s =
      let (answer, w) = B.build (local_request o path) s.world in
      (engine_error B answer, record s { world = w })

  -- What the locked cell gives, or is filled with.
  abbrev pub from_cell :
      TursoConnectOptions Io Log
      → Option B.Database
      → Opening B
      → Result B.Database Error × Opening B
  from_cell o (some d) s = (ok d, s)
  from_cell o none s = keep_created B (build_database o (codes ":memory:") s)

  -- `memory_database`
  unfoldable pub memory_database :
      TursoConnectOptions Io Log → Opening B → Result B.Database Error × Opening B
  memory_database o s =
      if not (is_shared o.cache_mode)
      then build_database o (codes ":memory:") s
      else from_cell o s.cell s

  abbrev pub open_target :
      TursoConnectOptions Io Log
      → TursoDatabaseTarget
      → Opening B
      → Result B.Database Error × Opening B
  open_target o (memory _) s = memory_database o s
  open_target o (file path) s =
      checked B (validate_file_target o path s.world) (build_database o path) s

  -- `database`
  unfoldable pub database :
      TursoConnectOptions Io Log → Opening B → Result B.Database Error × Opening B
  unfolding validate_open_support validate_file_target memory_database
  database o s = checked B (validate_open_support o) (open_target o o.target) s

  -- `apply_connection_options`: the busy timeout in milliseconds, and the pragmas.
  unfoldable pub apply_connection_options :
      TursoConnectOptions Io Log → B.Connection → Action (Opening B) (Unit {0})
  unfolding update_pragmas show_nat
  apply_connection_options o c = on_world B (
      update_pragmas B
        ((codes "busy_timeout", some (show_nat (o.busy_timeout / 10 ^ 6))) ∷ o.pragmas) c)

  abbrev pub connect_local : TursoConnectOptions Io Log → Action (Opening B) B.Connection
  connect_local o = do
    d ← database o
    c ← on_world B (B.connect d)
    apply_connection_options o c
    pure c

  -- `connect_sync` behind its checks of the options, for the target; the builder is told the path,
  -- the sync settings and one feature.
  abbrev pub sync_request :
      TursoConnectOptions Io Log → TursoSyncOptions → TursoDatabaseTarget → SyncRequest
  sync_request o y (memory _) = record {
    path = codes ":memory:";
    sync = y;
    index_method = is_enabled o.experimental_features index_method;
  }
  sync_request o y (file path) = record {
    path = path;
    sync = y;
    index_method = is_enabled o.experimental_features index_method;
  }

  abbrev pub validate_sync_target :
      TursoConnectOptions Io Log → TursoDatabaseTarget → Opening B → Result (Unit {0}) Error
  validate_sync_target o (memory _) s = ok tt
  validate_sync_target o (file path) s = validate_file_target o path s.world

  abbrev pub build_sync_connection :
      TursoConnectOptions Io Log → TursoSyncOptions → Action (Opening B) B.Connection
  build_sync_connection o y = do
    c ← on_world B (B.build_sync (sync_request o y o.target))
    apply_connection_options o c
    pure c

  -- `connect_sync`, with the feature `sync`.
  unfoldable pub connect_sync :
      TursoConnectOptions Io Log → TursoSyncOptions → Action (Opening B) B.Connection
  unfolding validate_sync_support apply_connection_options validate_file_target
  connect_sync o y =
      checked B (validate_sync_support o)
        (λ s. checked B (validate_sync_target o o.target s) (build_sync_connection o y) s)

  -- `connect`
  unfoldable pub connect : TursoConnectOptions Io Log → Action (Opening B) B.Connection
  unfolding validate_pragmas connect_sync database apply_connection_options
  connect o =
      checked B (validate_pragmas o)
        (elim (o.sync) [ some y ↦ connect_sync o y | none ↦ connect_local o ])
