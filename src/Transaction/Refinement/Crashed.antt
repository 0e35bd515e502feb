-- ===== src/Transaction/Refinement/Crashed.antt =====
-- A connection whose rollback has failed, and the program that goes on with it.
use sqlx_turso.Base.{Result, ok, err, ◌≡◌, refl, sym, ap, ◌∙◌, inl, inr, true, List, [], ◌∷◌, map}
use sqlx_turso.Error.{Error, worker_crashed}
use sqlx_turso.Engine.{Engine, AnsiSql}
use sqlx_turso.Statement.{StatementCache}
use sqlx_turso.Connection.{TursoConnection, clear_pending_rollback}
use sqlx_turso.Transaction.{start_rollback}
use sqlx_turso.Transaction.Invariant.{Cleared, clear-Cleared}
use sqlx_turso.Transaction.Refinement.History.{
  Op, begins, commits, rollbacks, drops, works, step, failed_step,
}
use sqlx_turso.Transaction.Refinement.Persist.{step-failed}

module _ (E : Engine) (C : StatementCache E.Statement) (Q : AnsiSql) (Db : Type 0) where
  -- What the calls report, one after the other, and the connection behind them.
  abbrev pub reports :
      List (Op E.State Db)
      → TursoConnection E C
      → List (Result (Unit {0}) Error) × TursoConnection E C
  reports [] c = ([], c)
  reports (o ∷ os) c =
      let later = reports os (step E C Q Db o c).1 in ((step E C Q Db o c).0 ∷ later.0, later.1)

  -- Dropping a transaction reports nothing; every other call reports a crashed worker.
  abbrev crash_report : Op E.State Db → Result (Unit {0}) Error
  crash_report drops = ok tt
  crash_report _ = err worker_crashed

  step-crash :
      (o : Op E.State Db) (c : TursoConnection E C)
      → c.transaction_state.rollback_failed ≡ true
      → ((step E C Q Db o c).0 ≡ crash_report o) × ((step E C Q Db o c).1.raw ≡ c.raw)
  unfolding start_rollback
  step-crash drops c f = (refl, refl)
  step-crash (begins s) c f =
      let e = failed_step E C Q Db (begins s) c f (λ e. cc) in
      (ap (λ r. r.0) e, ap (λ r. r.1.raw) e)
  step-crash commits c f =
      let e = failed_step E C Q Db commits c f (λ e. cc) in (ap (λ r. r.0) e, ap (λ r. r.1.raw) e)
  step-crash rollbacks c f =
      let e = failed_step E C Q Db rollbacks c f (λ e. cc) in (ap (λ r. r.0) e, ap (λ r. r.1.raw) e)
  step-crash (works w g) c f =
      let e = failed_step E C Q Db (works w g) c f (λ e. cc) in
      (ap (λ r. r.0) e, ap (λ r. r.1.raw) e)

  reports-crash :
      (os : List (Op E.State Db)) (c : TursoConnection E C)
      → c.transaction_state.rollback_failed ≡ true
      → ((reports os c).0 ≡ map crash_report os) × ((reports os c).1.raw ≡ c.raw)
  reports-crash [] c f = (refl, refl)
  reports-crash (o ∷ os) c f =
      let (reported, kept) = step-crash o c f in
      let (later, held) = reports-crash os (step E C Q Db o c).1 (step-failed E C Q Db o c f) in
      (
        ap (λ r. r ∷ (reports os (step E C Q Db o c).1).0) reported
            ∙ ap (λ l. crash_report o ∷ l) later,
        held ∙ kept,
      )

  unpaid_failed :
      (c d : TursoConnection E C) (e : Error) (out : Result (Unit {0}) Error × TursoConnection E C)
      → out ≡ (err e, d)
      → Cleared E C Q c out
      → d.transaction_state.rollback_failed ≡ true
  unpaid_failed c d e (ok _, b) h k = cc
  unpaid_failed c d e (err x, b) h (inl (f, k)) =
      ap (λ r. r.1.transaction_state.rollback_failed) (sym h ∙ k) ∙ f
  unpaid_failed c d e (err x, b) h (inr (f, k)) =
      ap (λ r. r.1.transaction_state.rollback_failed) (sym h) ∙ k.0

  -- Once the rollbacks that a connection owes could not be paid, no later call reaches the engine:
  -- each begin, commit, rollback and work reports a crashed worker, however many follow and whatever
  -- transactions are dropped in between.
  pub crashed_for_good :
      (c d : TursoConnection E C) (e : Error) (os : List (Op E.State Db))
      → clear_pending_rollback E C Q c ≡ (err e, d)
      → ((reports os d).0 ≡ map crash_report os) × ((reports os d).1.raw ≡ d.raw)
  crashed_for_good c d e os h = reports-crash os d (unpaid_failed c d e _ h (clear-Cleared E C Q c))
