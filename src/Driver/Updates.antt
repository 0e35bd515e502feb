-- ===== src/Driver/Updates.antt =====
-- crates/sqlx-turso-core/src/driver.rs: what the loop over the pragmas has set, and that nothing is set
-- before it.
use sqlx_turso.Base.{
  if_elim, All, Result, ok, err, ◌≡◌, refl, sym, ap, subst, ◌∙◌, false, not, Option, none, some,
  List, [], ◌∷◌, ◌++◌, append-nil, append_assoc, arith,
}
use sqlx_turso.Text.{Text, codes, eq_ignore_ascii_case}
use sqlx_turso.Error.{EngineError, Error}
use sqlx_turso.Options.{TursoConnectOptions}
use sqlx_turso.Options.Settings.{TursoDatabaseTarget, memory, file, is_shared}
use sqlx_turso.Driver.{
  any_autovacuum, validate_open_support, update_pragmas, keep_created, validate_file_target,
  build_database, from_cell, memory_database, open_target, database,
}
use sqlx_turso.Builder.{
  LocalRequest, SyncRequest, Builders, local_request, Opening, engine_error, checked,
}

-- A record of the pragmas that have been set; nothing else that the driver calls sets one.
pub record PragmaLog {Io : Type 0} (B : Builders Io) : Type 0 where
  pub log : B.World → List (Text × Text)
  pub update_law :
      (key value : Text) (c : B.Connection) (w : B.World)
      → (B.pragma_update key value c w).0 ≡ ok tt
      → log (B.pragma_update key value c w).1 ≡ log w ++ (key, value) ∷ []
  pub build_law : (r : LocalRequest Io) (w : B.World) → log (B.build r w).1 ≡ log w
  pub build_sync_law : (r : SyncRequest) (w : B.World) → log (B.build_sync r w).1 ≡ log w
  pub connect_law : (d : B.Database) (w : B.World) → log (B.connect d w).1 ≡ log w

-- The pragmas that have a value, in their order.
abbrev pub valued : List (Text × Option Text) → List (Text × Text)
valued [] = []
valued ((key, none) ∷ ps) = valued ps
valued ((key, some value) ∷ ps) = (key, value) ∷ valued ps

-- None of the pragmas that are sent turns `auto_vacuum` on or off.
abbrev pub NoAutovacuum : List (Text × Text) → Type 0
NoAutovacuum = All (λ p. eq_ignore_ascii_case p.0 (codes "auto_vacuum") ≡ false)

pub valued-NoAutovacuum :
    (ps : List (Text × Option Text)) → any_autovacuum ps ≡ false → NoAutovacuum (valued ps)
unfolding any_autovacuum
valued-NoAutovacuum [] h = tt
valued-NoAutovacuum ((key, none) ∷ ps) h = valued-NoAutovacuum ps (ground arith)
valued-NoAutovacuum ((key, some value) ∷ ps) h =
    (ground arith, valued-NoAutovacuum ps (ground arith))

pub NoAutovacuum-any_autovacuum :
    (ps : List (Text × Option Text)) → NoAutovacuum (valued ps) → any_autovacuum ps ≡ false
unfolding any_autovacuum
NoAutovacuum-any_autovacuum [] h = refl
NoAutovacuum-any_autovacuum ((key, none) ∷ ps) h =
    let later = NoAutovacuum-any_autovacuum ps h in ground arith
NoAutovacuum-any_autovacuum ((key, some value) ∷ ps) (h, hs) =
    let later = NoAutovacuum-any_autovacuum ps hs in ground arith

module _ {Io : Type 0} (B : Builders Io) (L : PragmaLog B) where
  open L use {log}

  -- What a call that succeeds has set.
  abbrev Sets : {X : Type 0} → List (Text × Text) → B.World → Result (Unit {0}) X × B.World → Type 0
  Sets sent w (ok _, w') = log w' ≡ log w ++ sent
  Sets sent w (err _, w') = Unit

  both-Sets :
      {X : Type 0} (first later : List (Text × Text)) (w w' : B.World)
      (out : Result (Unit {0}) X × B.World)
      → log w' ≡ log w ++ first
      → Sets later w' out
      → Sets (first ++ later) w out
  both-Sets first later w w' (ok u, v) h k =
      k ∙ ap (λ l. l ++ later) h ∙ append_assoc (log w) first later
  both-Sets first later w w' (err e, v) h k = tt

  pub update_pragmas-Sets :
      (ps : List (Text × Option Text)) (c : B.Connection) (w : B.World)
      → Sets (valued ps) w (update_pragmas B ps c w)
  unfolding update_pragmas
  update_pragmas-Sets [] c w = sym (append-nil (log w))
  update_pragmas-Sets ((key, none) ∷ ps) c w = update_pragmas-Sets ps c w
  update_pragmas-Sets ((key, some value) ∷ ps) c w =
      answered (B.pragma_update key value c w) refl
        (update_pragmas-Sets ps c (B.pragma_update key value c w).1)
    where
      answered :
          (out : Result (Unit {0}) EngineError × B.World)
          → B.pragma_update key value c w ≡ out
          → Sets (valued ps) out.1 (update_pragmas B ps c out.1)
          → Sets {X = EngineError}
              ((key, value) ∷ valued ps)
              w
              (elim (out.0) [ ok _ ↦ update_pragmas B ps c out.1 | err e ↦ (err e, out.1) ])
      answered (err e, w') h k = tt
      answered (ok u, w') h k =
          both-Sets ((key, value) ∷ []) (valued ps) w w' (update_pragmas B ps c w')
            (subst
              (λ (out : Result (Unit {0}) EngineError × B.World).
                log out.1 ≡ log w ++ (key, value) ∷ [])
              h (L.update_law key value c w (ap (λ out. out.0) h)))
            k

  pub Sets-ok :
      (sent : List (Text × Text)) (w : B.World) (out : Result (Unit {0}) EngineError × B.World)
      → out.0 ≡ ok tt
      → Sets sent w out
      → log out.1 ≡ log w ++ sent
  Sets-ok sent w (ok u, w') h k = k
  Sets-ok sent w (err e, w') h k = cc

  pub answer-ok :
      {A : Type 0} (out : Result A EngineError × B.World) (s t : Opening B) (a : A)
      → ◌≡◌ {A = Result A Error × Opening B}
          (engine_error B out.0, record s { world = out.1 })
          (ok a, t)
      → (out.0 ≡ ok a) × (t.world ≡ out.1)
  answer-ok (ok b, w) s t a h = ground arith
  answer-ok (err e, w) s t a h = cc

  -- No pragma is set before the connection is there.
  abbrev Unset : {A : Type 0} → Opening B → Result A Error × Opening B → Type 0
  Unset s out = log out.1.world ≡ log s.world

  checked-Unset :
      {A : Type 0} (r : Result (Unit {0}) Error) (next : Opening B → Result A Error × Opening B)
      (s : Opening B)
      → Unset s (next s)
      → Unset s (checked B r next s)
  checked-Unset (ok u) next s h = h
  checked-Unset (err e) next s h = refl

  keep_created-Unset :
      (s : Opening B) (out : Result B.Database Error × Opening B)
      → Unset s out
      → Unset s (keep_created B out)
  keep_created-Unset s (ok d, t) h = h
  keep_created-Unset s (err e, t) h = h

module _ {Io Log : Type 0} (B : Builders Io) (L : PragmaLog B)
    (o : TursoConnectOptions Io Log) where
  open L use {log}

  from_cell-Unset : (c : Option B.Database) (s : Opening B) → Unset B L s (from_cell B o c s)
  from_cell-Unset (some d) s = refl
  from_cell-Unset none s =
      keep_created-Unset B L s (build_database B o (codes ":memory:") s)
        (L.build_law (local_request o (codes ":memory:")) s.world)

  open_target-Unset :
      (target : TursoDatabaseTarget) (s : Opening B) → Unset B L s (open_target B o target s)
  unfolding memory_database
  open_target-Unset (memory name) s =
      if_elim (Unset B L s) (not (is_shared o.cache_mode))
        (λ _. L.build_law (local_request o (codes ":memory:")) s.world)
        (λ _. from_cell-Unset s.cell s)
  open_target-Unset (file path) s =
      checked-Unset B L (validate_file_target B o path s.world) (build_database B o path) s
        (L.build_law (local_request o path) s.world)

  pub database-Unset : (s : Opening B) → Unset B L s (database B o s)
  unfolding database
  database-Unset s =
      checked-Unset B L (validate_open_support o) (open_target B o o.target) s
        (open_target-Unset o.target s)
