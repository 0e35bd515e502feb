-- ===== src/Transaction/Refinement/History.antt =====
-- Whole histories of a connection: calls of the manager, dropped transactions, and work in between.
use sqlx_turso.Base.{
  All, err, ℕ, ◌≡◌, refl, sym, ap, ◌∙◌, ◌≢◌, inl, inr, true, Option, List, [], ◌∷◌, arith,
}
use sqlx_turso.Text.{Text}
use sqlx_turso.Error.{worker_crashed}
use sqlx_turso.Engine.{Engine, AnsiSql}
use sqlx_turso.Statement.{StatementCache}
use sqlx_turso.Action.{Action, ◌>>◌, pure, modify}
use sqlx_turso.Connection.{TursoConnection, new, clear_pending_rollback}
use sqlx_turso.Transaction.{begin, commit, rollback, start_rollback}
use sqlx_turso.Transaction.Invariant.{
  IsSound, clear_then, begin-IsSound, commit-IsSound, rollback-IsSound, start_rollback-IsSound,
}
use sqlx_turso.Transaction.Laws.{Transactional}
use sqlx_turso.Transaction.Refinement.{
  Nested, begun, committed, rolled_back, Holds-same, Refines, Settled,
}
use sqlx_turso.Transaction.Refinement.Steps.{
  Implements, and_then-Implements, clear_then-Implements, Opening, begin_cleared-Implements,
  commit_cleared-Implements, rollback_cleared-Implements, start_rollback-Refines,
}

-- `works w g` is a call of the executor: `w` is what it does to the engine, and `g` to the database.
pub data Op (S Db : Type 0) : Type 0 where
  begins : Option Text → Op S Db
  commits rollbacks drops : Op S Db
  works : (S → S) → (Db → Db) → Op S Db

module _ (E : Engine) (C : StatementCache E.Statement) (Q : AnsiSql) (Db : Type 0) where
  -- Work begins with `clear_pending_rollback`, as `fetch_many_sql` does.
  abbrev pub step : Op E.State Db → Action (TursoConnection E C) (Unit {0})
  step (begins statement) = begin E C Q statement
  step commits = commit E C Q
  step rollbacks = rollback E C Q
  step drops = modify (start_rollback E C Q)
  step (works w g) =
      clear_pending_rollback E C Q >> modify λ (c : TursoConnection E C). record c { raw = w c.raw }

  -- A history goes on up to the first call that fails.
  abbrev pub run : List (Op E.State Db) → Action (TursoConnection E C) (Unit {0})
  run [] = pure tt
  run (o ∷ os) = step o >> run os

  abbrev pub spec_step : Op E.State Db → Nested Db → Nested Db
  spec_step (begins _) n = begun n
  spec_step commits n = committed n
  spec_step rollbacks n = rolled_back n
  spec_step drops n = rolled_back n
  spec_step (works w g) n = record n { current = g n.current }

  abbrev spec_run : List (Op E.State Db) → Nested Db → Nested Db
  spec_run [] n = n
  spec_run (o ∷ os) n = spec_run os (spec_step o n)

  pub step-IsSound :
      (o : Op E.State Db) (c : TursoConnection E C) → IsSound E C Q c → IsSound E C Q (step o c).1
  step-IsSound (begins statement) c h = begin-IsSound E C Q statement c h
  step-IsSound commits c h = commit-IsSound E C Q c h
  step-IsSound rollbacks c h = rollback-IsSound E C Q c h
  step-IsSound drops c h = start_rollback-IsSound E C Q c h
  step-IsSound (works w g) c h =
      clear_then E C Q (IsSound E C Q) _ c h (λ d f. inl f) (λ d k _. inr (0, k.0, k.1))

  -- Once a rollback has failed, the next begin, commit, rollback or work reports a crashed worker and
  -- leaves the connection as it is.
  pub failed_step :
      (o : Op E.State Db) (c : TursoConnection E C)
      → c.transaction_state.rollback_failed ≡ true
      → o ≢ drops
      → step o c ≡ (err worker_crashed, c)
  unfolding begin commit rollback clear_pending_rollback
  failed_step (begins statement) c f h = ground arith
  failed_step commits c f h = ground arith
  failed_step rollbacks c f h = ground arith
  failed_step drops c f h = absurd (h refl)
  failed_step (works w g) c f h = ground arith

  module _ (T : Transactional E Q Db) where
    open T use {db, saved}

    -- What is asked of the steps: custom statements open a transaction, and work keeps the marks.
    abbrev pub IsLawful : Op E.State Db → Type 0
    IsLawful (begins statement) = Opening E C Q Db T statement
    IsLawful (works w g) =
        (s : E.State) → (db (w s) ≡ g (db s)) × ((j : ℕ) → saved (w s) j ≡ saved s j)
    IsLawful _ = Unit

    pub worked-Refines :
        (w : E.State → E.State) (g : Db → Db) (n : Nested Db)
        → IsLawful (works w g)
        → (d : TursoConnection E C) → Settled E C Q Db T d n
        → Refines E C Q Db T (record d { raw = w d.raw }) (spec_step (works w g) n)
    worked-Refines w g n l d s = record {
      dropped = [];
      holds = Holds-same E C Q Db T d.raw (w d.raw) n.marks (λ j _. (l d.raw).1 j) s.holds;
      depth_is = s.depth_is;
      owed = s.owed;
      current_is = ap g s.current_is ∙ sym (l d.raw).0;
      healthy = s.healthy;
    }

    pub step-Implements :
        (o : Op E.State Db) (n : Nested Db) (c : TursoConnection E C)
        → IsLawful o
        → Refines E C Q Db T c n
        → Implements E C Q Db T (spec_step o n) (step o c)
    unfolding begin commit rollback
    step-Implements (begins statement) n c l h =
        clear_then-Implements E C Q Db T _ n (begun n)
          (λ d s. begin_cleared-Implements E C Q Db T statement n d l s) c h
    step-Implements commits n c l h =
        clear_then-Implements E C Q Db T _ n (committed n)
          (λ d s. commit_cleared-Implements E C Q Db T n.current n.marks d s) c h
    step-Implements rollbacks n c l h =
        clear_then-Implements E C Q Db T _ n (rolled_back n)
          (λ d s. rollback_cleared-Implements E C Q Db T n.current n.marks d s) c h
    step-Implements drops n c l h = start_rollback-Refines E C Q Db T c n.current n.marks h
    step-Implements (works w g) n c l h =
        clear_then-Implements E C Q Db T _ n (spec_step (works w g) n) (worked-Refines w g n l) c h

    run-Implements :
        (os : List (Op E.State Db)) (n : Nested Db) (c : TursoConnection E C)
        → All IsLawful os
        → Refines E C Q Db T c n
        → Implements E C Q Db T (spec_run os n) (run os c)
    run-Implements [] n c l h = h
    run-Implements (o ∷ os) n c l h =
        and_then-Implements E C Q Db T (spec_step o n) (spec_run os (spec_step o n)) (run os)
          (step o c) (step-Implements o n c l.0 h)
          (λ d k. run-Implements os (spec_step o n) d l.1 k)

    pub new-Refines :
        (capacity : ℕ) (s : E.State)
        → Refines E C Q Db T (new E C capacity s) (record { current = db s; marks = [] })
    unfolding new
    new-Refines capacity s = record {
      dropped = [];
      holds = tt;
      depth_is = refl;
      owed = refl;
      current_is = refl;
      healthy = refl;
    }

    -- A history of a new connection in which every call succeeds leaves a connection that stands
    -- for the state of the specification, where a dropped transaction is rolled back at once.
    pub run-new-Implements :
        (os : List (Op E.State Db)) (capacity : ℕ) (s : E.State)
        → All IsLawful os
        → Implements E C Q Db T
            (spec_run os (record { current = db s; marks = [] }))
            (run os (new E C capacity s))
    run-new-Implements os capacity s l =
        run-Implements os (record { current = db s; marks = [] }) (new E C capacity s) l
          (new-Refines capacity s)
