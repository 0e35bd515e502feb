-- ===== src/Migrate/Runs/Atomic.antt =====
-- crates/sqlx-turso-core/src/migrate.rs: the body of a migration in a transaction takes effect as a
-- whole or not at all.
use sqlx_turso.Base.{
  Result, ok, err, ℤ, ◌≡◌, refl, ◌∙◌, inl, inr, Bool, true, false, none, List, [], ◌∷◌,
}
use sqlx_turso.Text.{Text}
use sqlx_turso.Error.{Error}
use sqlx_turso.Engine.{Engine, AnsiSql}
use sqlx_turso.Statement.{StatementCache}
use sqlx_turso.Connection.{TursoConnection}
use sqlx_turso.Transaction.{begin, commit, start_rollback}
use sqlx_turso.Transaction.Invariant.{mark-failed}
use sqlx_turso.Transaction.Laws.{Transactional}
use sqlx_turso.Transaction.Refinement.{Nested, begun, Refines}
use sqlx_turso.Transaction.Refinement.Steps.{start_rollback-Refines}
use sqlx_turso.Transaction.Refinement.Failing.{
  FailsCleanly, Rests, Attains, begin-Attains, commit-Attains,
}
use sqlx_turso.Migrate.Identifier.{MigrateError, execute, execute_migration, SqliteIdentifierPath}
use sqlx_turso.Migrate.Runs.{
  Migration, update_text, insert_text, delete_text, Step, then_step, lifted, insert_migration_row,
  run_sql, execute_step, revert_step, Ended, result, left_by, after_commit, after_body, after_begin,
  run_body,
}
use sqlx_turso.Executor.Fetch.Cached.{CacheLaws}
use sqlx_turso.Executor.Fetch.Owned.{Held}
use sqlx_turso.Executor.Fetch.Calls.{begins, commits, drops, call-Held}
use sqlx_turso.Migrate.Runner.{Bound, number, string, bytes, flag, Collector, run_query}
use sqlx_turso.Migrate.Runs.Laws.{
  on_db, Steps, QueryLaws, run_query-Held, text-Steps, bound-Attains,
}
use sqlx_turso.Migrate.Runs.Depth.{ended}

module _ {Db : Type 0} (effect : Text → List Bound → Db → Db) where
  -- The row of a migration, and what a migration does when all its steps succeed.
  abbrev pub row : SqliteIdentifierPath → Migration → Bool → Db → Db
  row table m success =
      effect (insert_text table)
        (number m.version ∷ string m.description ∷ flag success ∷ bytes m.checksum ∷ [])

  abbrev pub migrated : SqliteIdentifierPath → Migration → Db → Db
  migrated table m x = row table m true (effect m.sql [] x)

  abbrev pub timed : SqliteIdentifierPath → Migration → ℤ → Db → Db
  timed table m elapsed = effect (update_text table) (number elapsed ∷ number m.version ∷ [])

  abbrev pub reverted : SqliteIdentifierPath → Migration → Db → Db
  reverted table m x = effect (delete_text table) (number m.version ∷ []) (effect m.sql [] x)

module _ (E : Engine) (C : StatementCache E.Statement) (Q : AnsiSql) (Db : Type 0)
    (T : Transactional E Q Db) where
  module _ (inert : FailsCleanly T) (L : CacheLaws C) (K : Collector E)
      (q : QueryLaws E C Q Db T L K) where
    -- A text, and then a statement.
    then-Steps :
        (f g : Db → Db) (n : Nested Db) (next : Step (TursoConnection E C))
        (out : Result (Unit {0}) MigrateError × TursoConnection E C)
        → Steps E C Q Db T f n out
        → Held E C L out.1
        → ((d : TursoConnection E C)
            → Refines E C Q Db T d (on_db f n)
            → Held E C L d
            → Attains E C Q Db T (on_db (λ x. g (f x)) n) (on_db f n) (next d))
        → Steps E C Q Db T (λ x. g (f x)) n (then_step next out)
    then-Steps f g n next (err e, d) h k later = h
    then-Steps f g n next (ok _, d) h k later = whole (next d) (later d h k)
      where
        whole :
            (out : Result (Unit {0}) MigrateError × TursoConnection E C)
            → Attains E C Q Db T (on_db (λ x. g (f x)) n) (on_db f n) out
            → Steps E C Q Db T (λ x. g (f x)) n out
        whole (ok _, d) h = h
        whole (err e, d) (inl h) = inl h
        whole (err e, d) (inr h) = inr (f n.current, h)

    lifted-Steps :
        (f : Db → Db) (n : Nested Db) (g : Error → MigrateError)
        (out : Result (Unit {0}) Error × TursoConnection E C)
        → Steps E C Q Db T f n out
        → Steps E C Q Db T f n (lifted g out)
    lifted-Steps f n g (ok _, d) h = h
    lifted-Steps f n g (err e, d) h = h

    pub lifted-Attains :
        (n' n : Nested Db) (g : Error → MigrateError)
        (out : Result (Unit {0}) Error × TursoConnection E C)
        → Attains E C Q Db T n' n out
        → Attains E C Q Db T n' n (lifted g out)
    lifted-Attains n' n g (ok _, d) h = h
    lifted-Attains n' n g (err e, d) h = h

    run_sql-Steps :
        (m : Migration) (c : TursoConnection E C) (n : Nested Db)
        → q.Plain m.sql
        → Refines E C Q Db T c n
        → Held E C L c
        → Steps E C Q Db T (q.effect m.sql []) n (run_sql E C Q K m c)
    run_sql-Steps m c n p h k =
        lifted-Steps (q.effect m.sql []) n (λ e. execute_migration e m.version)
          (run_query E C Q K m.sql [] c) (text-Steps E C Q Db T L K q m.sql c n p h k)

    pub execute_step-Steps :
        (table : SqliteIdentifierPath) (m : Migration) (c : TursoConnection E C) (n : Nested Db)
        → q.Plain m.sql
        → Refines E C Q Db T c n
        → Held E C L c
        → Steps E C Q Db T (migrated q.effect table m) n (execute_step E C Q K table m c)
    unfolding execute_step
    execute_step-Steps table m c n p h k =
        then-Steps (q.effect m.sql []) (row q.effect table m true) n
          (insert_migration_row E C Q K table m true) (run_sql E C Q K m c)
          (run_sql-Steps m c n p h k) (run_query-Held E C Q Db T L K m.sql [] c k)
          (λ d r held. lifted-Attains _ _ execute _ (
            bound-Attains E C Q Db T L K q (insert_text table) (number m.version)
              (string m.description ∷ flag true ∷ bytes m.checksum ∷ []) d _ (table, inl refl) r
              held))

    pub revert_step-Steps :
        (table : SqliteIdentifierPath) (m : Migration) (c : TursoConnection E C) (n : Nested Db)
        → q.Plain m.sql
        → Refines E C Q Db T c n
        → Held E C L c
        → Steps E C Q Db T (reverted q.effect table m) n (revert_step E C Q K table m c)
    unfolding revert_step
    revert_step-Steps table m c n p h k =
        then-Steps (q.effect m.sql []) (q.effect (delete_text table) (number m.version ∷ [])) n _
          (run_sql E C Q K m c) (run_sql-Steps m c n p h k)
          (run_query-Held E C Q Db T L K m.sql [] c k)
          (λ d r held. lifted-Attains _ _ execute _ (
            bound-Attains E C Q Db T L K q (delete_text table) (number m.version) [] d _
              (table, inr (inr refl)) r held))

    -- A step behind another keeps what the cache holds.
    then_step-Held :
        (next : Step (TursoConnection E C))
        (out : Result (Unit {0}) MigrateError × TursoConnection E C)
        → Held E C L out.1
        → ((d : TursoConnection E C) → Held E C L d → Held E C L (next d).1)
        → Held E C L (then_step next out).1
    then_step-Held next (ok _, d) h later = later d h
    then_step-Held next (err e, d) h later = h

    pub execute_step-Held :
        (table : SqliteIdentifierPath) (m : Migration) (c : TursoConnection E C)
        → Held E C L c
        → Held E C L (execute_step E C Q K table m c).1
    unfolding execute_step
    execute_step-Held table m c h =
        then_step-Held (insert_migration_row E C Q K table m true) (run_sql E C Q K m c)
          (run_query-Held E C Q Db T L K m.sql [] c h)
          (λ d k.
            run_query-Held E C Q Db T L K (insert_text table)
              (number m.version ∷ string m.description ∷ flag true ∷ bytes m.checksum ∷ []) d k)

    -- How the body ended: with the whole effect, or with none.
    abbrev pub Whole : (Db → Db) → Nested Db → Ended E C Q K → Type 0
    Whole f n (result out) = Attains E C Q Db T (on_db f n) n out
    Whole f n (left_by e d) = Rests E C Q Db T n d

    -- The body behind the begin.
    abbrev BodySteps : (Db → Db) → Nested Db → Step (TursoConnection E C) → Type 0
    BodySteps f n body =
        (d : TursoConnection E C)
        → Refines E C Q Db T d (begun n)
        → Held E C L d
        → Steps E C Q Db T f (begun n) (body d)

    dropped-Rests :
        (x : Db) (n : Nested Db) (d : TursoConnection E C)
        → Refines E C Q Db T d (on_db (λ _. x) (begun n))
        → Rests E C Q Db T n (start_rollback E C Q d)
    dropped-Rests x n d h = inr (start_rollback-Refines E C Q Db T d x (n.current ∷ n.marks) h)

    crashed-Rests :
        (n : Nested Db) (d : TursoConnection E C)
        → d.transaction_state.rollback_failed ≡ true
        → Rests E C Q Db T n (start_rollback E C Q d)
    unfolding start_rollback
    crashed-Rests n d h = inl (mark-failed d.transaction_state ∙ h)

    after_commit-Whole :
        (f : Db → Db) (n : Nested Db) (out : Result (Unit {0}) Error × TursoConnection E C)
        → Attains E C Q Db T (on_db f n) (on_db f (begun n)) out
        → Whole f n (after_commit E C Q K out)
    after_commit-Whole f n (ok _, d) h = h
    after_commit-Whole f n (err e, d) (inl h) = crashed-Rests n d h
    after_commit-Whole f n (err e, d) (inr h) = dropped-Rests (f n.current) n d h

    after_body-Whole :
        (f : Db → Db) (n : Nested Db) (out : Result (Unit {0}) MigrateError × TursoConnection E C)
        → Steps E C Q Db T f (begun n) out
        → Whole f n (after_body E C Q K out)
    after_body-Whole f n (ok _, d) h =
        after_commit-Whole f n (commit E C Q d)
          (commit-Attains E C Q Db T inert d (on_db f (begun n)) h)
    after_body-Whole f n (err e, d) (inl h) = crashed-Rests n d h
    after_body-Whole f n (err e, d) (inr (x, h)) = dropped-Rests x n d h

    after_begin-Whole :
        (f : Db → Db) (n : Nested Db) (body : Step (TursoConnection E C))
        (out : Result (Unit {0}) Error × TursoConnection E C)
        → BodySteps f n body
        → Attains E C Q Db T (begun n) n out
        → Held E C L out.1
        → Whole f n (after_begin E C Q K body out)
    after_begin-Whole f n body (ok _, d) steps h k = after_body-Whole f n (body d) (steps d h k)
    after_begin-Whole f n body (err e, d) steps h k = h

    pub run_body-Whole :
        (f : Db → Db) (n : Nested Db) (body : Step (TursoConnection E C)) (c : TursoConnection E C)
        → BodySteps f n body
        → Refines E C Q Db T c n
        → Held E C L c
        → Whole f n (run_body E C Q K false body c)
    run_body-Whole f n body c steps h k =
        after_begin-Whole f n body (begin E C Q none c) steps
          (begin-Attains E C Q Db T inert none c n tt h) (call-Held E C L Q (begins none) c k)

    after_commit-Held :
        (out : Result (Unit {0}) Error × TursoConnection E C)
        → Held E C L out.1
        → Held E C L (ended E C Q K (after_commit E C Q K out))
    after_commit-Held (ok _, d) h = h
    after_commit-Held (err e, d) h = call-Held E C L Q drops d h

    after_body-Held :
        (out : Result (Unit {0}) MigrateError × TursoConnection E C)
        → Held E C L out.1
        → Held E C L (ended E C Q K (after_body E C Q K out))
    after_body-Held (ok _, d) h = after_commit-Held (commit E C Q d) (call-Held E C L Q commits d h)
    after_body-Held (err e, d) h = call-Held E C L Q drops d h

    after_begin-Held :
        (body : Step (TursoConnection E C)) (out : Result (Unit {0}) Error × TursoConnection E C)
        → ((d : TursoConnection E C) → Held E C L d → Held E C L (body d).1)
        → Held E C L out.1
        → Held E C L (ended E C Q K (after_begin E C Q K body out))
    after_begin-Held body (ok _, d) keep h = after_body-Held (body d) (keep d h)
    after_begin-Held body (err e, d) keep h = h

    pub run_body-Held :
        (body : Step (TursoConnection E C)) (c : TursoConnection E C)
        → ((d : TursoConnection E C) → Held E C L d → Held E C L (body d).1)
        → Held E C L c
        → Held E C L (ended E C Q K (run_body E C Q K false body c))
    run_body-Held body c keep h =
        after_begin-Held body (begin E C Q none c) keep (call-Held E C L Q (begins none) c h)
