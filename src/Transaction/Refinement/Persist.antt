-- ===== src/Transaction/Refinement/Persist.antt =====
-- A program that goes on when a call of the transaction manager fails.
use sqlx_turso.Base.{
  All, Result, ok, err, ℕ, ◌≡◌, refl, ap, ◌∙◌, inl, inr, Bool, true, false, List, [], ◌∷◌,
}
use sqlx_turso.Error.{Error}
use sqlx_turso.Engine.{Engine, AnsiSql}
use sqlx_turso.Statement.{StatementCache}
use sqlx_turso.Connection.{TursoConnection, new}
use sqlx_turso.Transaction.{start_rollback}
use sqlx_turso.Transaction.Invariant.{mark-failed, IsSound}
use sqlx_turso.Transaction.Laws.{Transactional}
use sqlx_turso.Transaction.Refinement.{Nested, Refines}
use sqlx_turso.Transaction.Refinement.History.{
  Op, begins, commits, rollbacks, drops, works, step, spec_step, step-IsSound, failed_step,
  IsLawful, worked-Refines, step-Implements, new-Refines,
}
use sqlx_turso.Transaction.Refinement.Failing.{
  FailsCleanly, Rests, Attains, clear_then-Attains, begin-Attains, commit-Attains, rollback-Attains,
}

abbrev succeeded : Result (Unit {0}) Error → Bool
succeeded (ok _) = true
succeeded (err _) = false

module _ (E : Engine) (C : StatementCache E.Statement) (Q : AnsiSql) (Db : Type 0) where
  -- All the calls, whatever each reports, and which of them succeeded.
  abbrev pub persist : List (Op E.State Db) → TursoConnection E C → List Bool × TursoConnection E C
  persist [] c = ([], c)
  persist (o ∷ os) c =
      let later = persist os (step E C Q Db o c).1 in
      (succeeded (step E C Q Db o c).0 ∷ later.0, later.1)

  -- The specification takes the steps of the calls that succeeded.
  abbrev pub taken : List (Op E.State Db) → List Bool → Nested Db → Nested Db
  taken (o ∷ os) (true ∷ bs) n = taken os bs (spec_step E C Q Db o n)
  taken (o ∷ os) (false ∷ bs) n = taken os bs n
  taken _ _ n = n

  persist-IsSound :
      (os : List (Op E.State Db)) (c : TursoConnection E C)
      → IsSound E C Q c
      → IsSound E C Q (persist os c).1
  persist-IsSound [] c h = h
  persist-IsSound (o ∷ os) c h =
      persist-IsSound os (step E C Q Db o c).1 (step-IsSound E C Q Db o c h)

  -- After any calls on a new connection, each of which may fail, with the program going on behind
  -- it, and whatever the engine answers, the connection has failed, or its queue holds exactly the
  -- depths d + k, ..., d + 1 above its depth d, in this order.
  pub persist-new-IsSound :
      (os : List (Op E.State Db)) (capacity : ℕ) (s : E.State)
      → IsSound E C Q (persist os (new E C capacity s)).1
  unfolding new
  persist-new-IsSound os capacity s = persist-IsSound os _ (inr (0, refl, refl))

  abbrev crashed : Result (Unit {0}) Error × TursoConnection E C → Bool
  crashed out = out.1.transaction_state.rollback_failed

  pub step-failed :
      (o : Op E.State Db) (c : TursoConnection E C)
      → c.transaction_state.rollback_failed ≡ true
      → (step E C Q Db o c).1.transaction_state.rollback_failed ≡ true
  unfolding start_rollback
  step-failed drops c f = mark-failed c.transaction_state ∙ f
  step-failed (begins s) c f = ap crashed (failed_step E C Q Db (begins s) c f (λ e. cc)) ∙ f
  step-failed commits c f = ap crashed (failed_step E C Q Db commits c f (λ e. cc)) ∙ f
  step-failed rollbacks c f = ap crashed (failed_step E C Q Db rollbacks c f (λ e. cc)) ∙ f
  step-failed (works w g) c f = ap crashed (failed_step E C Q Db (works w g) c f (λ e. cc)) ∙ f

  persist-failed :
      (os : List (Op E.State Db)) (c : TursoConnection E C)
      → c.transaction_state.rollback_failed ≡ true
      → (persist os c).1.transaction_state.rollback_failed ≡ true
  persist-failed [] c f = f
  persist-failed (o ∷ os) c f = persist-failed os (step E C Q Db o c).1 (step-failed o c f)

  module _ (T : Transactional E Q Db) (inert : FailsCleanly T) where
    step-Attains :
        (o : Op E.State Db) (n : Nested Db) (c : TursoConnection E C)
        → IsLawful E C Q Db T o
        → Refines E C Q Db T c n
        → Attains E C Q Db T (spec_step E C Q Db o n) n (step E C Q Db o c)
    step-Attains (begins statement) n c l h = begin-Attains E C Q Db T inert statement c n l h
    step-Attains commits n c l h = commit-Attains E C Q Db T inert c n h
    step-Attains rollbacks n c l h = rollback-Attains E C Q Db T inert c n h
    step-Attains drops n c l h = step-Implements E C Q Db T drops n c l h
    step-Attains (works w g) n c l h =
        clear_then-Attains E C Q Db T _ n (spec_step E C Q Db (works w g) n)
          (worked-Refines E C Q Db T w g n l) c h

    persist-Rests :
        (os : List (Op E.State Db)) (n : Nested Db) (c : TursoConnection E C)
        → All (IsLawful E C Q Db T) os
        → Refines E C Q Db T c n
        → Rests E C Q Db T (taken os (persist os c).0 n) (persist os c).1
    persist-Rests [] n c l h = inr h
    persist-Rests (o ∷ os) n c l h =
        go (step E C Q Db o c) (step-Attains o n c l.0 h) (λ m d. persist-Rests os m d l.1)
      where
        go :
            (out : Result (Unit {0}) Error × TursoConnection E C)
            → Attains E C Q Db T (spec_step E C Q Db o n) n out
            → ((m : Nested Db) (d : TursoConnection E C)
                → Refines E C Q Db T d m
                → Rests E C Q Db T (taken os (persist os d).0 m) (persist os d).1)
            → Rests E C Q Db T
                (taken (o ∷ os) (succeeded out.0 ∷ (persist os out.1).0) n)
                (persist os out.1).1
        go (ok _, d) r later = later (spec_step E C Q Db o n) d r
        go (err e, d) (inl f) later = inl (persist-failed os d f)
        go (err e, d) (inr r) later = later n d r

    -- After any calls on a new connection, each of which may fail, with the program going on behind
    -- it, a rollback has failed, or the connection stands for the state of nested transactions that
    -- the calls which reported success lead to, where a dropped transaction is rolled back at once.
    pub persist-new-Rests :
        (os : List (Op E.State Db)) (capacity : ℕ) (s : E.State)
        → All (IsLawful E C Q Db T) os
        → Rests E C Q Db T
            (taken os (persist os (new E C capacity s)).0 (record { current = T.db s; marks = [] }))
            (persist os (new E C capacity s)).1
    unfolding new
    persist-new-Rests os capacity s l = persist-Rests os _ _ l (new-Refines E C Q Db T capacity s)
