-- ===== src/Migrate/Runs/Depth.antt =====
-- Running a migration leaves no transaction open.
use sqlx_turso.Base.{
  Result, ok, err, and_then, ℤ, ℕ, ◌+◌, ◌≡◌, refl, ap, ◌∙◌, inl, inr, Bool, true, false, none, List,
  [], ◌∷◌, arith,
}
use sqlx_turso.Error.{Error}
use sqlx_turso.Engine.{Engine, AnsiSql}
use sqlx_turso.Statement.{StatementCache}
use sqlx_turso.Action.{Action}
use sqlx_turso.Connection.{
  TursoConnection, increment_depth, decrement_depth, mark_rollback_needed, clear_pending_rollback,
}
use sqlx_turso.Transaction.{execute_raw, begin_cleared, begin, end_cleared, commit, start_rollback}
use sqlx_turso.Transaction.Invariant.{Cleared, clear-Cleared}
use sqlx_turso.Migrate.Identifier.{MigrateError, SqliteIdentifierPath, parse_path}
use sqlx_turso.Migrate.Runs.{
  update_text, insert_text, delete_text, Migration, Step, then_step, insert_migration_row, run_sql,
  execute_step, revert_step, Ended, result, left_by, after_commit, after_body, after_begin,
  run_body, finish_apply, apply_table, apply, finish_revert, revert_table, revert,
}
use sqlx_turso.Migrate.Runner.{number, string, bytes, flag, Bound, Collector, run_query}
use sqlx_turso.Migrate.Runner.Kept.{run_query-depth}
use sqlx_turso.Text.{Text}

module _ (E : Engine) (C : StatementCache E.Statement) (Q : AnsiSql) where
  abbrev depth : TursoConnection E C → ℕ
  depth c = c.transaction_state.depth

  -- The depth behind a call that succeeds is `m`, behind one that fails `n`.
  abbrev Leaves : {A : Type 0} → ℕ → ℕ → Result (Unit {0}) A × TursoConnection E C → Type 0
  Leaves m n (ok _, c) = depth c ≡ m
  Leaves m n (err _, c) = depth c ≡ n

  -- An action behind `clear_pending_rollback`, by what it does to the depth.
  clear_then-Leaves :
      (m n : ℕ) (k : Action (TursoConnection E C) (Unit {0})) (c : TursoConnection E C)
      → depth c ≡ n
      → ((d : TursoConnection E C) → depth d ≡ n → Leaves m n (k d))
      → Leaves m n (and_then (λ _. k) (clear_pending_rollback E C Q c))
  clear_then-Leaves m n k c e next = go (clear_pending_rollback E C Q c) (clear-Cleared E C Q c)
    where
      go :
          (out : Result (Unit {0}) Error × TursoConnection E C)
          → Cleared E C Q c out
          → Leaves m n (and_then (λ _. k) out)
      go (ok _, d) (inl (f, h)) = cc
      go (ok _, d) (inr (f, h)) = next d (h.1 ∙ e)
      go (err _, d) (inl (f, h)) = ap (λ o. depth o.1) h ∙ e
      go (err _, d) (inr (f, h)) = h.1 ∙ e

  begin-Leaves : (c : TursoConnection E C) → Leaves (depth c + 1) (depth c) (begin E C Q none c)
  unfolding begin begin_cleared execute_raw increment_depth
  begin-Leaves c =
      clear_then-Leaves (depth c + 1) (depth c) (begin_cleared E C Q none) c refl opened
    where
      opened :
          (d : TursoConnection E C)
          → depth d ≡ depth c
          → Leaves (depth c + 1) (depth c) (begin_cleared E C Q none d)
      opened d e = ground arith

  commit-Leaves :
      (n : ℕ) (c : TursoConnection E C) → depth c ≡ n + 1 → Leaves n (n + 1) (commit E C Q c)
  unfolding commit end_cleared execute_raw decrement_depth
  commit-Leaves n c e = clear_then-Leaves n (n + 1) (end_cleared E C Q Q.commit_sql) c e closed
    where
      closed :
          (d : TursoConnection E C)
          → depth d ≡ n + 1
          → Leaves n (n + 1) (end_cleared E C Q Q.commit_sql d)
      closed d h = ground arith

  start_rollback-depth :
      (n : ℕ) (c : TursoConnection E C) → depth c ≡ n + 1 → depth (start_rollback E C Q c) ≡ n
  unfolding start_rollback mark_rollback_needed decrement_depth
  start_rollback-depth n c e = ground arith

  module _ (K : Collector E) where
    -- A query opens and closes no transaction of the connection.
    keeps :
        (sql : Text) (args : List Bound) (c : TursoConnection E C)
        → depth (run_query E C Q K sql args c).1 ≡ depth c
    keeps sql args c = run_query-depth E C Q K sql args c

    -- Both of two steps in a row keep the depth `n`.
    then_step-depth :
        (n : ℕ) (next : Step (TursoConnection E C))
        (out : Result (Unit {0}) MigrateError × TursoConnection E C)
        → depth out.1 ≡ n
        → ((d : TursoConnection E C) → depth (next d).1 ≡ depth d)
        → depth (then_step next out).1 ≡ n
    then_step-depth n next (ok _, d) e keep = keep d ∙ e
    then_step-depth n next (err _, d) e keep = e

    execute_step-depth :
        (table : SqliteIdentifierPath) (m : Migration) (c : TursoConnection E C)
        → depth (execute_step E C Q K table m c).1 ≡ depth c
    unfolding execute_step
    execute_step-depth table m c =
        then_step-depth (depth c) (insert_migration_row E C Q K table m true) (run_sql E C Q K m c)
          (keeps m.sql [] c)
          (λ d.
            keeps (insert_text table)
              (number m.version ∷ string m.description ∷ flag true ∷ bytes m.checksum ∷ []) d)

    revert_step-depth :
        (table : SqliteIdentifierPath) (m : Migration) (c : TursoConnection E C)
        → depth (revert_step E C Q K table m c).1 ≡ depth c
    unfolding revert_step
    revert_step-depth table m c =
        then_step-depth (depth c) _ (run_sql E C Q K m c) (keeps m.sql [] c)
          (λ d. keeps (delete_text table) (number m.version ∷ []) d)

    abbrev pub ended : Ended E C Q K → TursoConnection E C
    ended (result out) = out.1
    ended (left_by e c) = c

    after_commit-depth :
        (n : ℕ) (out : Result (Unit {0}) Error × TursoConnection E C)
        → Leaves n (n + 1) out
        → depth (ended (after_commit E C Q K out)) ≡ n
    after_commit-depth n (ok _, d) h = h
    after_commit-depth n (err _, d) h = start_rollback-depth n d h

    after_body-depth :
        (n : ℕ) (out : Result (Unit {0}) MigrateError × TursoConnection E C)
        → depth out.1 ≡ n + 1
        → depth (ended (after_body E C Q K out)) ≡ n
    after_body-depth n (ok _, d) h = after_commit-depth n (commit E C Q d) (commit-Leaves n d h)
    after_body-depth n (err _, d) h = start_rollback-depth n d h

    after_begin-depth :
        (n : ℕ) (body : Step (TursoConnection E C))
        (out : Result (Unit {0}) Error × TursoConnection E C)
        → ((d : TursoConnection E C) → depth (body d).1 ≡ depth d)
        → Leaves (n + 1) n out
        → depth (ended (after_begin E C Q K body out)) ≡ n
    after_begin-depth n body (ok _, d) keep h = after_body-depth n (body d) (keep d ∙ h)
    after_begin-depth n body (err _, d) keep h = h

    run_body-depth :
        (no_tx : Bool) (body : Step (TursoConnection E C)) (c : TursoConnection E C)
        → ((d : TursoConnection E C) → depth (body d).1 ≡ depth d)
        → depth (ended (run_body E C Q K no_tx body c)) ≡ depth c
    run_body-depth true body c keep = keep c
    run_body-depth false body c keep =
        after_begin-depth (depth c) body (begin E C Q none c) keep (begin-Leaves c)

    finish_apply-depth :
        (table : SqliteIdentifierPath) (m : Migration) (elapsed : ℤ) (n : ℕ) (out : Ended E C Q K)
        → depth (ended out) ≡ n
        → depth (finish_apply E C Q K table m elapsed out).1 ≡ n
    finish_apply-depth table m elapsed n (left_by e c) h = h
    finish_apply-depth table m elapsed n (result (ok _, c)) h =
        keeps (update_text table) (number elapsed ∷ number m.version ∷ []) c ∙ h
    finish_apply-depth table m elapsed n (result (err e, c)) h =
        then_step-depth n (λ d. (err e, d)) (insert_migration_row E C Q K table m false c)
          (keeps (insert_text table)
              (number m.version ∷ string m.description ∷ flag false ∷ bytes m.checksum ∷ []) c
            ∙ h)
          (λ d. refl)

    finish_revert-depth :
        (n : ℕ) (out : Ended E C Q K)
        → depth (ended out) ≡ n
        → depth (finish_revert E C Q K out).1 ≡ n
    finish_revert-depth n (left_by e c) h = h
    finish_revert-depth n (result out) h = h

    -- Applying a migration and reverting one leave the depth of the connection as it was, on every
    -- branch: a name that is refused, a failed begin, query, commit or row included.
    pub migration-depth :
        (table_name : Text) (m : Migration) (elapsed : ℤ) (c : TursoConnection E C)
        → ((apply E C Q K table_name m elapsed c).1.transaction_state.depth
            ≡ c.transaction_state.depth)
          × ((revert E C Q K table_name m c).1.transaction_state.depth ≡ c.transaction_state.depth)
    unfolding apply revert
    migration-depth table_name m elapsed c =
        (applied (parse_path table_name), reverted (parse_path table_name))
      where
        applied :
            (r : Result SqliteIdentifierPath MigrateError)
            → depth (apply_table E C Q K m elapsed r c).1 ≡ depth c
        applied (err e) = refl
        applied (ok table) =
            finish_apply-depth table m elapsed (depth c)
              (run_body E C Q K m.no_tx (execute_step E C Q K table m) c)
              (run_body-depth m.no_tx (execute_step E C Q K table m) c (execute_step-depth table m))

        reverted :
            (r : Result SqliteIdentifierPath MigrateError)
            → depth (revert_table E C Q K m r c).1 ≡ depth c
        reverted (err e) = refl
        reverted (ok table) =
            finish_revert-depth (depth c) (run_body E C Q K m.no_tx (revert_step E C Q K table m) c)
              (run_body-depth m.no_tx (revert_step E C Q K table m) c (revert_step-depth table m))
