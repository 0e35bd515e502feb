-- ===== src/Executor/Fetch/Cached.antt =====
-- crates/sqlx-turso-core/src/executor.rs and connection.rs: the statements that the cache of a
-- connection holds.
use sqlx_turso.Base.{
  if_elim, Result, ok, err, and_then, ℕ, ◌≡◌, refl, subst, ◌⊎◌, inl, inr, Option, none, some,
}
use sqlx_turso.Text.{Text}
use sqlx_turso.Error.{EngineError, Error}
use sqlx_turso.Engine.{Engine}
use sqlx_turso.Action.{Action, ◌>>=◌, ◌>>◌, pure, modify}
use sqlx_turso.Column.{turso_columns}
use sqlx_turso.Statement.{StatementCache, TursoStatement, with_raw}
use sqlx_turso.Connection.{TursoConnection, cached_statement, cache_statement}
use sqlx_turso.Executor.Fetch.{engine_result, on_engine, prepare_sql}

-- What a cache holds: the statements that were inserted, each under its text, and not those that were
-- cleared.
pub record CacheLaws {S : Type 0} (C : StatementCache S) : Type 1 where
  pub Holds : C.Cache → Text → TursoStatement S → Type 0
  pub empty_law : (n : ℕ) (q : Text) (st : TursoStatement S) → Holds (C.with_capacity n) q st → ⊥
  pub hit_law :
      (q : Text) (c : C.Cache) (st : TursoStatement S) → (C.get_mut q c).0 ≡ some st → Holds c q st
  pub get_law :
      (key q : Text) (c : C.Cache) (st : TursoStatement S)
      → Holds (C.get_mut key c).1 q st
      → Holds c q st
  pub insert_law :
      (key q : Text) (c : C.Cache) (added st : TursoStatement S)
      → Holds (C.insert key added c) q st
      → ((key ≡ q) × (added ≡ st)) ⊎ Holds c q st
  pub clear_law : (q : Text) (c : C.Cache) (st : TursoStatement S) → Holds (C.clear c) q st → ⊥

module _ (E : Engine) where
  -- The engine prepared the text so, in some state.
  abbrev pub Prepares : Text → E.Statement → Type 0
  Prepares q raw = (s : E.State) × ((E.prepare q s).0 ≡ ok raw)

  -- The statement is what the engine prepared the text as, with its columns.
  abbrev pub IsPrepared : Text → TursoStatement E.Statement → Type 0
  IsPrepared q st =
      (raw : E.Statement) × Prepares q raw × (st ≡ with_raw q (turso_columns (E.columns raw)) raw)

module _ (E : Engine) (C : StatementCache E.Statement) (L : CacheLaws C) where
  -- Every statement of the cache was prepared from the text that it is held under.
  abbrev pub AreCached : C.Cache → Type 0
  AreCached cache =
      (q : Text) (st : TursoStatement E.Statement) → L.Holds cache q st → IsPrepared E q st

  -- What a call that prepares a text leaves and gives.
  abbrev pub Outcome : {X : Type 0} → (X → Type 0) → Result X Error × TursoConnection E C → Type 0
  Outcome P (ok x, c) = AreCached c.statements × P x
  Outcome P (err e, c) = AreCached c.statements

  inserted :
      (q : Text) (st : TursoStatement E.Statement) (cache : C.Cache)
      → IsPrepared E q st
      → AreCached cache
      → AreCached (C.insert q st cache)
  inserted q st cache h cached key other k = elim (L.insert_law q key cache st other k) [
    | inl e ↦ subst (IsPrepared E key) (e.1) (subst (λ r. IsPrepared E r st) (e.0) h)
    | inr m ↦ cached key other m
  ]

  cache_statement-Cached :
      (q : Text) (st : TursoStatement E.Statement) (c : TursoConnection E C)
      → IsPrepared E q st
      → AreCached c.statements
      → AreCached (cache_statement E C q st c).statements
  unfolding cache_statement
  cache_statement-Cached q st c h cached =
      if_elim (λ (d : TursoConnection E C). AreCached d.statements) (C.is_enabled c.statements)
        (λ _. inserted q st c.statements h cached) (λ _. cached)

  -- What `prepare_sql` does where the cache has nothing.
  abbrev pub prepared_anew :
      Text → E.Statement → Action (TursoConnection E C) (TursoStatement E.Statement)
  prepared_anew sql raw = do
    let statement = with_raw sql (turso_columns (E.columns raw)) raw
    modify (cache_statement E C sql statement)
    pure statement

  anew-Outcome :
      (q : Text) (c : TursoConnection E C) (s : E.State) (a : Result E.Statement EngineError)
      → AreCached c.statements
      → (E.prepare q s).0 ≡ a
      → Outcome (IsPrepared E q) (and_then (prepared_anew q) (engine_result E a, c))
  anew-Outcome q c s (err e) cached h = cached
  anew-Outcome q c s (ok raw) cached h =
      let fresh : IsPrepared E q (with_raw q (turso_columns (E.columns raw)) raw) =
        (raw, (s, h), refl) in
      (
        cache_statement-Cached q (with_raw q (turso_columns (E.columns raw)) raw) c fresh cached,
        fresh,
      )

  pub prepare_sql-Outcome :
      (q : Text) (c : TursoConnection E C)
      → AreCached c.statements
      → Outcome (IsPrepared E q) (prepare_sql E C q c)
  unfolding prepare_sql cached_statement
  prepare_sql-Outcome q c cached = found (C.get_mut q c.statements).0 refl
    where
      looked : TursoConnection E C
      looked = record c { statements = (C.get_mut q c.statements).1 }

      still : AreCached (C.get_mut q c.statements).1
      still key st h = cached key st (L.get_law q key c.statements st h)

      found :
          (hit : Option (TursoStatement E.Statement))
          → (C.get_mut q c.statements).0 ≡ hit
          → Outcome (IsPrepared E q) (elim hit [
            | some statement ↦ (ok statement, looked)
            | none ↦ (on_engine E C (E.prepare q) >>= prepared_anew q) looked
          ])
      found (some st) h = (still, cached q st (L.hit_law q c.statements st h))
      found none h =
          anew-Outcome q (record looked { raw = (E.prepare q c.raw).1 }) c.raw (E.prepare q c.raw).0
            still refl
