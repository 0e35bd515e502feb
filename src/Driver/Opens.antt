-- ===== src/Driver/Opens.antt =====
-- crates/sqlx-turso-core/src/driver.rs: builders whose calls succeed open what may open.
use sqlx_turso.Base.{
  is_some, if_elim, Result, ok, err, and_then, ◌/◌, ◌^◌, ◌≡◌, refl, ap, ◌∙◌, false, not, Option,
  none, some, List, [], ◌∷◌, arith,
}
use sqlx_turso.Text.{Text, codes}
use sqlx_turso.Text.Decimal.{show_nat}
use sqlx_turso.Error.{EngineError, Error}
use sqlx_turso.Options.{TursoConnectOptions}
use sqlx_turso.Options.Settings.{TursoDatabaseTarget, memory, file, is_shared, TursoSyncOptions}
use sqlx_turso.Action.{Action, ◌>>=◌, ◌>>◌, pure}
use sqlx_turso.Driver.{
  any_autovacuum, validate_pragmas, validate_open_support, validate_sync_support, update_pragmas,
  keep_created, validate_file_target, build_database, from_cell, memory_database, open_target,
  database, apply_connection_options, connect_local, sync_request, validate_sync_target,
  build_sync_connection, connect_sync,
}
use sqlx_turso.Builder.{
  LocalRequest, SyncRequest, Builders, local_request, Opening, engine_error, on_world, checked,
}
use sqlx_turso.Driver.Updates.{NoAutovacuum-any_autovacuum}
use sqlx_turso.Driver.Checks.{Allowed}
use sqlx_turso.Driver.Accepts.{FitsSync, Accepted}

-- Builders whose calls succeed, whatever the world is.
pub record Willing {Io : Type 0} (B : Builders Io) : Type 0 where
  pub built : (r : LocalRequest Io) (w : B.World) → (d : B.Database) × ((B.build r w).0 ≡ ok d)
  pub built_sync :
      (r : SyncRequest) (w : B.World) → (c : B.Connection) × ((B.build_sync r w).0 ≡ ok c)
  pub connected : (d : B.Database) (w : B.World) → (c : B.Connection) × ((B.connect d w).0 ≡ ok c)
  pub updated :
      (key value : Text) (c : B.Connection) (w : B.World)
      → (B.pragma_update key value c w).0 ≡ ok tt

-- The action gives a result.
abbrev pub Succeeds : {S A : Type 0} → Action S A → S → Type 0
Succeeds {S} {A} m s = (a : A) × (t : S) × (m s ≡ (ok a, t))

and_then-Succeeds :
    {S A C : Type 0} (m : Action S A) (f : A → Action S C) (s : S)
    → Succeeds m s
    → ((a : A) (t : S) → Succeeds (f a) t)
    → Succeeds (m >>= f) s
and_then-Succeeds m f s (a, t, h) next = let (c, u, k) = next a t in (c, u, ap (and_then f) h ∙ k)

module _ {Io : Type 0} (B : Builders Io) where
  checked-Succeeds :
      {A : Type 0} (r : Result (Unit {0}) Error) (next : Action (Opening B) A) (s : Opening B)
      → r ≡ ok tt
      → Succeeds next s
      → Succeeds (checked B r next) s
  checked-Succeeds (ok _) next s h k = k
  checked-Succeeds (err e) next s h k = cc

  on_world-Succeeds :
      {A : Type 0} (call : B.World → Result A EngineError × B.World) (s : Opening B) (a : A)
      → (call s.world).0 ≡ ok a
      → Succeeds (on_world B call) s
  on_world-Succeeds {A} call s a h = (
    a,
    record s { world = (call s.world).1 },
    ap {A = Result A EngineError} (λ r. (engine_error B r, record s { world = (call s.world).1 }))
        h,
  )

  update_pragmas-ok :
      Willing B
      → (ps : List (Text × Option Text)) (c : B.Connection) (w : B.World)
      → (update_pragmas B ps c w).0 ≡ ok tt
  unfolding update_pragmas
  update_pragmas-ok W [] c w = refl
  update_pragmas-ok W ((key, none) ∷ ps) c w = update_pragmas-ok W ps c w
  update_pragmas-ok W ((key, some value) ∷ ps) c w =
      rw (W.updated key value c w, update_pragmas)
        (update_pragmas-ok W ps c (B.pragma_update key value c w).1)

  keep_created-Succeeds :
      (m : Action (Opening B) B.Database) (s : Opening B)
      → Succeeds m s
      → Succeeds (λ s. keep_created B (m s)) s
  keep_created-Succeeds m s (d, t, h) = (d, record t { cell = some d }, ap (keep_created B) h)

module _ {Io Log : Type 0} (B : Builders Io) (W : Willing B) (o : TursoConnectOptions Io Log) where
  applied-Succeeds :
      (c : B.Connection) (s : Opening B) → Succeeds (apply_connection_options B o c >> pure c) s
  unfolding apply_connection_options
  applied-Succeeds c s =
      let all : List (Text × Option Text) =
        (codes "busy_timeout", some (show_nat (o.busy_timeout / 10 ^ 6))) ∷ o.pragmas in
      and_then-Succeeds (apply_connection_options B o c) (λ _. pure c) s
        (on_world-Succeeds B (update_pragmas B all c) s tt (update_pragmas-ok B W all c s.world))
        (λ _ t. (c, t, refl))

  build_database-Succeeds : (path : Text) (s : Opening B) → Succeeds (build_database B o path) s
  build_database-Succeeds path s =
      let (d, h) = W.built (local_request o path) s.world in
      on_world-Succeeds B (B.build (local_request o path)) s d h

  memory_database-Succeeds : (s : Opening B) → Succeeds (memory_database B o) s
  unfolding memory_database
  memory_database-Succeeds s =
      let built = build_database-Succeeds (codes ":memory:") s in
      if_elim (λ out. (d : B.Database) × (t : Opening B) × (out ≡ (ok d, t)))
        (not (is_shared o.cache_mode)) (λ _. built) (λ _. celled s.cell)
    where
      celled : (c : Option B.Database) → Succeeds (from_cell B o c) s
      celled (some d) = (d, s, refl)
      celled none =
          keep_created-Succeeds B (build_database B o (codes ":memory:")) s
            (build_database-Succeeds (codes ":memory:") s)

  open_target-Succeeds :
      (g : TursoDatabaseTarget) (s : Opening B) → Allowed B o g s → Succeeds (open_target B o g) s
  open_target-Succeeds (memory _) s h = memory_database-Succeeds s
  open_target-Succeeds (file path) s h =
      checked-Succeeds B (validate_file_target B o path s.world) (build_database B o path) s
        (unfold validate_file_target in ground arith) (build_database-Succeeds path s)

  database-Succeeds : (s : Opening B) → Accepted B o s → Succeeds (database B o) s
  unfolding database
  database-Succeeds s (_, write, change, _, allowed) =
      checked-Succeeds B (validate_open_support o) (open_target B o o.target) s
        (unfold validate_open_support in ground arith) (open_target-Succeeds o.target s allowed)

  connect_local-Succeeds : (s : Opening B) → Accepted B o s → Succeeds (connect_local B o) s
  connect_local-Succeeds s h =
      and_then-Succeeds (database B o)
        (λ d. on_world B (B.connect d) >>= (λ c. apply_connection_options B o c >> pure c)) s
        (database-Succeeds s h)
        (λ d t.
          let (c, k) = W.connected d t.world in
          and_then-Succeeds (on_world B (B.connect d))
            (λ c. apply_connection_options B o c >> pure c) t
            (on_world-Succeeds B (B.connect d) t c k) applied-Succeeds)

  connect_sync-Succeeds :
      (y : TursoSyncOptions) (s : Opening B)
      → is_some o.custom_io ≡ false
      → Accepted B o s
      → Succeeds (connect_sync B o y) s
  unfolding connect_sync
  connect_sync-Succeeds y s own (_, write, change, _, allowed) =
      checked-Succeeds B (validate_sync_support o)
        (λ s. checked B (validate_sync_target B o o.target s) (build_sync_connection B o y) s) s
        (unfold validate_sync_support in ground arith)
        (checked-Succeeds B (validate_sync_target B o o.target s) (build_sync_connection B o y) s
          (found o.target allowed)
          (let (c, k) = W.built_sync (sync_request B o y o.target) s.world in
            and_then-Succeeds (on_world B (B.build_sync (sync_request B o y o.target)))
              (λ c. apply_connection_options B o c >> pure c) s
              (on_world-Succeeds B (B.build_sync (sync_request B o y o.target)) s c k)
              applied-Succeeds))
    where
      found : (g : TursoDatabaseTarget) → Allowed B o g s → validate_sync_target B o g s ≡ ok tt
      found (memory _) h = refl
      found (file path) h = unfold validate_file_target in ground arith

  -- Where the builders' calls succeed, a connection is opened for all options that give `auto_vacuum`
  -- no value, are neither read-only nor immutable and, with sync, have no IO of their own, where a file
  -- exists or may be created.
  pub connect-Succeeds :
      (s : Opening B) → Accepted B o s → Succeeds (sqlx_turso.Driver.connect B o) s
  unfolding sqlx_turso.Driver.connect
  connect-Succeeds s h =
      checked-Succeeds B (validate_pragmas o) (connects o.sync) s
        (valid (NoAutovacuum-any_autovacuum o.pragmas h.0)) (by_sync o.sync h.3)
    where
      connects : Option TursoSyncOptions → Action (Opening B) B.Connection
      connects y = elim y [ some y ↦ connect_sync B o y | none ↦ connect_local B o ]

      valid : any_autovacuum o.pragmas ≡ false → validate_pragmas o ≡ ok tt
      valid h = unfold validate_pragmas in rw h refl

      by_sync : (y : Option TursoSyncOptions) → FitsSync B o y → Succeeds (connects y) s
      by_sync none own = connect_local-Succeeds s h
      by_sync (some y) own = connect_sync-Succeeds y s own h
