-- ===== src/Builder.antt =====
-- crates/sqlx-turso-core/src/driver.rs: what the engine's builders are told, and what they are taken to
-- be; the state in which a connection is opened.
use sqlx_turso.Base.{Result, ok, err, map_err, Bool, Option, none, some}
use sqlx_turso.Text.{Text}
use sqlx_turso.Error.{EngineError, Error, from_turso}
use sqlx_turso.Action.{Action}
use sqlx_turso.Options.{TursoConnectOptions}
use sqlx_turso.Options.Features.{TursoExperimentalFeatures}
use sqlx_turso.Options.Settings.{TursoEncryptionOptions, TursoSyncOptions}

-- The IO that a builder is told to use.
pub data IoChoice (Io : Type 0) : Type 0 where
  custom : Io → IoChoice Io
  named : Text → IoChoice Io
  standard : IoChoice Io

-- What `build_database` tells `turso::Builder`, and `connect_sync` the builder of the sync engine.
pub record LocalRequest (Io : Type 0) : Type 0 where
  pub path : Text
  pub io_choice : IoChoice Io
  pub encryption : Option TursoEncryptionOptions
  pub features : TursoExperimentalFeatures

pub record SyncRequest : Type 0 where
  pub path : Text
  pub sync : TursoSyncOptions
  pub index_method : Bool

-- The engine, by the state of everything outside.
pub record Builders (Io : Type 0) : Type 1 where
  pub World : Type 0
  pub Database : Type 0
  pub Connection : Type 0
  pub display : EngineError → Text
  pub exists : Text → World → Bool
  pub build : LocalRequest Io → World → Result Database EngineError × World
  pub build_sync : SyncRequest → World → Result Connection EngineError × World
  pub connect : Database → World → Result Connection EngineError × World
  pub pragma_update : Text → Text → Connection → World → Result (Unit {0}) EngineError × World

module _ {Io Log : Type 0} where
  abbrev io_of : TursoConnectOptions Io Log → IoChoice Io
  io_of o = elim (o.custom_io) [
    | some x ↦ custom x
    | none ↦ elim (o.vfs) [ some v ↦ named v | none ↦ standard ]
  ]

  abbrev pub local_request : TursoConnectOptions Io Log → Text → LocalRequest Io
  local_request o path = record {
    path = path;
    io_choice = io_of o;
    encryption = o.encryption;
    features = o.experimental_features;
  }

module _ {Io : Type 0} (B : Builders Io) where
  -- The world, and the shared cell of the in-memory database of the options.
  pub record Opening : Type 0 where
    pub world : B.World
    pub cell : Option B.Database

  abbrev pub engine_error {ℓ} : {A : Type ℓ} → Result A EngineError → Result A Error
  engine_error = map_err (from_turso B.display)

  -- A call of the engine on the world.
  abbrev pub on_world : {A : Type 0} → (B.World → Result A EngineError × B.World) → Action Opening A
  on_world call s = let (answer, w) = call s.world in (engine_error answer, record s { world = w })

  -- `?` on a check, and what follows it.
  abbrev pub checked :
      {A : Type 0}
      → Result (Unit {0}) Error
      → (Opening → Result A Error × Opening)
      → Opening
      → Result A Error × Opening
  checked (ok _) next s = next s
  checked (err e) next s = (err e, s)
