-- ===== src/Any/Install.antt =====
-- crates/sqlx-turso-core/src/any.rs: installing the Any driver, once for the process.
use sqlx_turso.Base.{Result, ok, err, ◌≡◌, refl, Option, none, some}
use sqlx_turso.Text.{Text}
use sqlx_turso.Error.{Error, configuration, driver_install}

-- `install_turso_any_driver`: the cell keeps the outcome of the one call of `install_drivers`, of which
-- the answer and the state behind it are given.
abbrev install_result : Result (Unit {0}) Text → Result (Unit {0}) Error
install_result (ok _) = ok tt
install_result (err e) = err (configuration (driver_install e))

module _ {W : Type 0} (install_drivers : W → Result (Unit {0}) Text × W) where
  -- `get_or_init`
  abbrev installed :
      Option (Result (Unit {0}) Text)
      → W
      → Result (Unit {0}) Text × Option (Result (Unit {0}) Text) × W
  installed (some r) w = (r, some r, w)
  installed none w = let answer = install_drivers w in (answer.0, some answer.0, answer.1)

  unfoldable install_turso_any_driver :
      Option (Result (Unit {0}) Text)
      → W
      → Result (Unit {0}) Error × Option (Result (Unit {0}) Text) × W
  install_turso_any_driver cell w =
      let kept = installed cell w in (install_result kept.0, kept.1, kept.2)

  -- Installing again answers as the first time and calls `install_drivers` no more, whether that
  -- succeeded or failed.
  install-install :
      (cell : Option (Result (Unit {0}) Text)) (w v : W)
      → let first = install_turso_any_driver cell w in
        install_turso_any_driver first.1 v ≡ (first.0, first.1, v)
  unfolding install_turso_any_driver
  install-install none w v = refl
  install-install (some r) w v = refl
