-- ===== src/Driver/Sent.antt =====
-- crates/sqlx-turso-core/src/driver.rs: which pragmas an opened connection has been sent.
use sqlx_turso.Base.{
  ok, and_then-ok, ◌/◌, ◌^◌, ◌≡◌, sym, ap, ◌∙◌, Option, none, some, List, ◌∷◌, ◌++◌,
}
use sqlx_turso.Text.{Text, codes}
use sqlx_turso.Text.Decimal.{show_nat}
use sqlx_turso.Options.{TursoConnectOptions}
use sqlx_turso.Options.Settings.{TursoSyncOptions}
use sqlx_turso.Action.{Action, ◌>>=◌, ◌>>◌, pure}
use sqlx_turso.Driver.{
  validate_pragmas, validate_sync_support, update_pragmas, database, apply_connection_options,
  connect_local, sync_request, validate_sync_target, build_sync_connection, connect_sync,
}
use sqlx_turso.Builder.{Builders, Opening, on_world, checked}
use sqlx_turso.Driver.Updates.{
  PragmaLog, valued, NoAutovacuum, valued-NoAutovacuum, update_pragmas-Sets, Sets-ok, answer-ok,
  database-Unset,
}
use sqlx_turso.Driver.Checks.{validate_pragmas-ok, checked-ok, checked-next}

module _ {Io Log : Type 0} (B : Builders Io) (L : PragmaLog B)
    (o : TursoConnectOptions Io Log) where
  open L use {log}

  -- What a connection of the options is sent: how long to wait for a busy database, in milliseconds,
  -- and the pragmas.
  abbrev pub sent : List (Text × Text)
  sent = (codes "busy_timeout", show_nat (o.busy_timeout / 10 ^ 6)) ∷ valued o.pragmas

  applied :
      (c : B.Connection) (s t : Opening B) (u : Unit {0})
      → apply_connection_options B o c s ≡ (ok u, t)
      → log t.world ≡ log s.world ++ sent
  unfolding apply_connection_options
  applied c s t u h =
      let all : List (Text × Option Text) =
        (codes "busy_timeout", some (show_nat (o.busy_timeout / 10 ^ 6))) ∷ o.pragmas in
      let out = answer-ok B L (update_pragmas B all c s.world) s t u h in
      ap log out.1
      ∙ Sets-ok B L sent s.world (update_pragmas B all c s.world) out.0
          (update_pragmas-Sets B L all c s.world)

  -- Behind the call that gives the connection.
  finished :
      (c d : B.Connection) (s t : Opening B)
      → (apply_connection_options B o c >> pure c) s ≡ (ok d, t)
      → log t.world ≡ log s.world ++ sent
  finished c d s t h =
      let done = and_then-ok (λ _. pure c) (apply_connection_options B o c s) d t h in
      ap (λ r. log r.world) (sym (ap (λ r. r.1) done.3)) ∙ applied c s done.1 done.0 done.2

  local-sent :
      (c : B.Connection) (s t : Opening B)
      → connect_local B o s ≡ (ok c, t)
      → log t.world ≡ log s.world ++ sent
  local-sent c s t h =
      let opened =
        and_then-ok
          (λ d. on_world B (B.connect d) >>= (λ c. apply_connection_options B o c >> pure c))
          (database B o s) c t h in
      let joined =
        and_then-ok (λ c. apply_connection_options B o c >> pure c)
          (on_world B (B.connect opened.0) opened.1) c t opened.3 in
      let answer =
        answer-ok B L (B.connect opened.0 (opened.1).world) opened.1 joined.1 joined.0 joined.2 in
      finished joined.0 c joined.1 t joined.3
      ∙ ap (λ l. l ++ sent)
          (ap log answer.1
            ∙ L.connect_law opened.0 (opened.1).world
            ∙ ap (λ r. log r.1.world) (sym opened.2)
            ∙ database-Unset B L o s)

  connect_sync-sent :
      (y : TursoSyncOptions) (c : B.Connection) (s t : Opening B)
      → connect_sync B o y s ≡ (ok c, t)
      → log t.world ≡ log s.world ++ sent
  unfolding connect_sync
  connect_sync-sent y c s t h =
      let checked_target =
        checked-next B (validate_sync_support o)
          (λ s. checked B (validate_sync_target B o o.target s) (build_sync_connection B o y) s) s t
          c h in
      let built =
        checked-next B (validate_sync_target B o o.target s) (build_sync_connection B o y) s t c
          checked_target in
      let joined =
        and_then-ok (λ c. apply_connection_options B o c >> pure c)
          (on_world B (B.build_sync (sync_request B o y o.target)) s) c t built in
      let answer =
        answer-ok B L (B.build_sync (sync_request B o y o.target) s.world) s joined.1 joined.0
          joined.2 in
      finished joined.0 c joined.1 t joined.3
      ∙ ap (λ l. l ++ sent)
          (ap log answer.1 ∙ L.build_sync_law (sync_request B o y o.target) s.world)

  -- A connection that is opened has been sent the time to wait for a busy database and then the
  -- pragmas of its options that have a value, in their order, and nothing else; none of these pragmas
  -- is `auto_vacuum`. The builders have a log of pragmas that nothing but an update writes to.
  pub connect-sent :
      (c : B.Connection) (s t : Opening B)
      → sqlx_turso.Driver.connect B o s ≡ (ok c, t)
      → (log t.world ≡ log s.world ++ sent) × NoAutovacuum (valued o.pragmas)
  unfolding sqlx_turso.Driver.connect
  connect-sent c s t h = (
    by_sync o.sync (checked-next B (validate_pragmas o) (connects o.sync) s t c h),
    valued-NoAutovacuum o.pragmas
        (validate_pragmas-ok B o (checked-ok B (validate_pragmas o) (connects o.sync) s t c h)),
  )
    where
      connects : Option TursoSyncOptions → Action (Opening B) B.Connection
      connects y = elim y [ some y ↦ connect_sync B o y | none ↦ connect_local B o ]

      by_sync :
          (y : Option TursoSyncOptions)
          → connects y s ≡ (ok c, t)
          → log t.world ≡ log s.world ++ sent
      by_sync none k = local-sent c s t k
      by_sync (some y) k = connect_sync-sent y c s t k
