-- ===== src/Connection/Sync.antt =====
-- crates/sqlx-turso-core/src/connection.rs: the calls of a connection to its sync database, which is
-- there only where the driver opened it so. The sync engine is a parameter.
use sqlx_turso.Base.{Result, ok, err, map_err, Bool, Option, none, some}
use sqlx_turso.Text.{Text, codes}
use sqlx_turso.Error.{EngineError, Error, from_turso, unsupported_sqlx}

-- `turso::sync::Database`, by the state of everything outside.
pub record SyncEngine : Type 1 where
  pub World : Type 0
  pub Database : Type 0
  pub Stats : Type 0
  pub display : EngineError → Text
  pub push : Database → World → Result (Unit {0}) EngineError × World
  pub pull : Database → World → Result Bool EngineError × World
  pub checkpoint : Database → World → Result (Unit {0}) EngineError × World
  pub stats : Database → World → Result Stats EngineError × World

module _ (S : SyncEngine) where
  unfoldable sync_database : Option S.Database → Result S.Database Error
  unfolding unsupported_sqlx
  sync_database none = err (unsupported_sqlx (codes "non-sync Turso connections"))
  sync_database (some d) = ok d

  -- A call of the database that is there, its error by `map_turso_error`.
  abbrev on_database :
      {A : Type 0}
      → (S.Database → S.World → Result A EngineError × S.World)
      → Result S.Database Error
      → S.World
      → Result A Error × S.World
  on_database call (err e) w = (err e, w)
  on_database call (ok d) w =
      let answer = call d w in (map_err (from_turso S.display) answer.0, answer.1)

  unfoldable sync_push : Option S.Database → S.World → Result (Unit {0}) Error × S.World
  unfolding sync_database
  sync_push d = on_database S.push (sync_database d)

  unfoldable sync_pull : Option S.Database → S.World → Result Bool Error × S.World
  unfolding sync_database
  sync_pull d = on_database S.pull (sync_database d)

  unfoldable sync_checkpoint : Option S.Database → S.World → Result (Unit {0}) Error × S.World
  unfolding sync_database
  sync_checkpoint d = on_database S.checkpoint (sync_database d)

  unfoldable sync_stats : Option S.Database → S.World → Result S.Stats Error × S.World
  unfolding sync_database
  sync_stats d = on_database S.stats (sync_database d)
