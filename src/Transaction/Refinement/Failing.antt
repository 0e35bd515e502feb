-- ===== src/Transaction/Refinement/Failing.antt =====
-- Histories in which calls fail and the program goes on: what a connection stands for then.
use sqlx_turso.Base.{
  ltb, ◌==◌, is_some, if_elim, Result, ok, err, map_err, and_then, ℕ, ◌≡◌, refl, sym, ◌∙◌, ◌⊎◌, inl,
  inr, true, ◌&&◌, Option, [],
}
use sqlx_turso.Text.{Text}
use sqlx_turso.Error.{EngineError, Error, from_turso}
use sqlx_turso.Engine.{Engine, AnsiSql}
use sqlx_turso.Statement.{StatementCache}
use sqlx_turso.Action.{Action, ◌>>◌}
use sqlx_turso.Connection.{
  TransactionState, increment_depth, decrement_depth, TursoConnection, clear_pending_rollback,
}
use sqlx_turso.Transaction.{
  execute_raw, on_state, begin_cleared, begin, end_cleared, commit, rollback,
}
use sqlx_turso.Transaction.Invariant.{Cleared, clear-Cleared}
use sqlx_turso.Transaction.Laws.{Transactional}
use sqlx_turso.Transaction.Refinement.{
  Nested, begun, committed, rolled_back, Holds-same, Refines, Settled, Settled-Refines,
}
use sqlx_turso.Transaction.Refinement.Loop.{ClearDone, clear-ClearDone}
use sqlx_turso.Transaction.Refinement.Steps.{
  Implements, Opening, begin_cleared-Implements, commit_cleared-Implements,
  rollback_cleared-Implements,
}

-- A transaction statement that fails leaves the database and the marks as they are.
pub record FailsCleanly {E : Engine} {Q : AnsiSql} {Db : Type 0} (T : Transactional E Q Db)
    : Type 0 where
  pub failed_law :
      (sql : Text) (s : E.State) (e : EngineError)
      → (E.execute sql s).0 ≡ err e
      → (T.db (E.execute sql s).1 ≡ T.db s)
        × ((j : ℕ) → T.saved (E.execute sql s).1 j ≡ T.saved s j)

module _ (E : Engine) (C : StatementCache E.Statement) (Q : AnsiSql) (Db : Type 0)
    (T : Transactional E Q Db) where
  open T use {db, saved}

  -- A connection that stands for `n`, unless a rollback has failed.
  abbrev pub Rests : Nested Db → TursoConnection E C → Type 0
  Rests n c = (c.transaction_state.rollback_failed ≡ true) ⊎ Refines E C Q Db T c n

  -- A call that succeeds leads to `n'`, one that fails leaves `n`.
  abbrev pub Attains :
      {A : Type 0} {X : Type 0} → Nested Db → Nested Db → Result A X × TursoConnection E C → Type 0
  Attains n' n (ok _, c) = Refines E C Q Db T c n'
  Attains n' n (err _, c) = Rests n c

  abbrev Fails : Nested Db → Result (Unit {0}) Error × TursoConnection E C → Type 0
  Fails n (ok _, c) = Unit
  Fails n (err _, c) = Refines E C Q Db T c n

  both-Attains :
      (n' n : Nested Db) (out : Result (Unit {0}) Error × TursoConnection E C)
      → Implements E C Q Db T n' out
      → Fails n out
      → Attains n' n out
  both-Attains n' n (ok _, c) h f = h
  both-Attains n' n (err e, c) h f = inr f

  -- A body that does so from every settled connection does so behind the clearing.
  pub clear_then-Attains :
      (k : Action (TursoConnection E C) (Unit {0})) (n n' : Nested Db)
      → ((d : TursoConnection E C) → Settled E C Q Db T d n → Attains n' n (k d))
      → (c : TursoConnection E C) → Refines E C Q Db T c n
      → Attains n' n ((clear_pending_rollback E C Q >> k) c)
  clear_then-Attains k n n' body c h =
      go (clear_pending_rollback E C Q c) (clear-ClearDone E C Q Db T c n h) (clear-Cleared E C Q c)
    where
      go :
          (out : Result (Unit {0}) Error × TursoConnection E C)
          → ClearDone E C Q Db T n out
          → Cleared E C Q c out
          → Attains n' n (and_then (λ _. k) out)
      go (ok _, d) s g = body d s
      go (err e, d) s (inl (f, same)) = cc
      go (err e, d) s (inr (f, ends)) = inl ends.0

  module _ (inert : FailsCleanly T) where
    execute-Fails :
        (sql : Text) (f : TransactionState → TransactionState) (d : TursoConnection E C)
        (n : Nested Db)
        → Settled E C Q Db T d n
        → Fails n ((execute_raw E C Q sql >> on_state E C Q f) d)
    unfolding execute_raw
    execute-Fails sql f d n h = go _ refl
      where
        go :
            (answer : Result (Unit {0}) EngineError)
            → (E.execute sql d.raw).0 ≡ answer
            → Fails n (
                and_then
                  (λ _. on_state E C Q f)
                  (
                    map_err (from_turso E.display) answer,
                    record d { raw = (E.execute sql d.raw).1 },
                  ))
        go (ok _) a = tt
        go (err e) a =
            let (same, kept) = inert.failed_law sql d.raw e a in
            record {
              dropped = [];
              holds = Holds-same E C Q Db T _ _ n.marks (λ j _. kept j) h.holds;
              depth_is = h.depth_is;
              owed = h.owed;
              current_is = h.current_is ∙ sym same;
              healthy = h.healthy;
            }

    begin_cleared-Fails :
        (statement : Option Text) (d : TursoConnection E C) (n : Nested Db)
        → Settled E C Q Db T d n
        → Fails n (begin_cleared E C Q statement d)
    unfolding begin_cleared
    begin_cleared-Fails statement d n h =
        if_elim (Fails n) (is_some statement && ltb 0 d.transaction_state.depth)
          (λ _. Settled-Refines E C Q Db T h) (λ _. execute-Fails _ increment_depth d n h)

    end_cleared-Fails :
        (sql : ℕ → Text) (d : TursoConnection E C) (n : Nested Db)
        → Settled E C Q Db T d n
        → Fails n (end_cleared E C Q sql d)
    unfolding end_cleared
    end_cleared-Fails sql d n h =
        if_elim (Fails n) (d.transaction_state.depth == 0) (λ _. tt)
          (λ _. execute-Fails _ decrement_depth d n h)

    pub begin-Attains :
        (statement : Option Text) (c : TursoConnection E C) (n : Nested Db)
        → Opening E C Q Db T statement
        → Refines E C Q Db T c n
        → Attains (begun n) n (begin E C Q statement c)
    unfolding begin
    begin-Attains statement c n o =
        clear_then-Attains (begin_cleared E C Q statement) n (begun n)
          (λ d s.
            both-Attains (begun n) n (begin_cleared E C Q statement d)
              (begin_cleared-Implements E C Q Db T statement n d o s)
              (begin_cleared-Fails statement d n s))
          c

    pub commit-Attains :
        (c : TursoConnection E C) (n : Nested Db)
        → Refines E C Q Db T c n
        → Attains (committed n) n (commit E C Q c)
    unfolding commit
    commit-Attains c n =
        clear_then-Attains (end_cleared E C Q Q.commit_sql) n (committed n)
          (λ d s.
            both-Attains (committed n) n (end_cleared E C Q Q.commit_sql d)
              (commit_cleared-Implements E C Q Db T n.current n.marks d s)
              (end_cleared-Fails Q.commit_sql d n s))
          c

    pub rollback-Attains :
        (c : TursoConnection E C) (n : Nested Db)
        → Refines E C Q Db T c n
        → Attains (rolled_back n) n (rollback E C Q c)
    unfolding rollback
    rollback-Attains c n =
        clear_then-Attains (end_cleared E C Q Q.rollback_sql) n (rolled_back n)
          (λ d s.
            both-Attains (rolled_back n) n (end_cleared E C Q Q.rollback_sql d)
              (rollback_cleared-Implements E C Q Db T n.current n.marks d s)
              (end_cleared-Fails Q.rollback_sql d n s))
          c
