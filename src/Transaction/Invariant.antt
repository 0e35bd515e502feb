-- ===== src/Transaction/Invariant.antt =====
-- What the rollback queue holds, whatever the engine answers.
use sqlx_turso.Base.{
  ◌==◌, Bool-cases, if_elim, Result, ok, err, and_then, ℕ, zero, suc, ◌+◌, ◌≡◌, refl, sym, ap,
  subst, ◌∙◌, ◌⊎◌, inl, inr, true, false, ◌&&◌, Option, List, [], ◌∷◌, ◌++◌, arith,
}
use sqlx_turso.Text.{Text}
use sqlx_turso.Error.{Error, EngineError, worker_crashed}
use sqlx_turso.Engine.{Engine, AnsiSql}
use sqlx_turso.Statement.{StatementCache}
use sqlx_turso.Action.{Action, ◌>>◌}
use sqlx_turso.Connection.{
  TransactionState, increment_depth, decrement_depth, mark_rollback_needed, mark_rollback_failed,
  TursoConnection, rollback_error_is_inactive_transaction, settle, clear_loop,
  clear_pending_rollback,
}
use sqlx_turso.Transaction.{begin_cleared, begin, end_cleared, commit, rollback, start_rollback}

-- d + k, ..., d + 1
abbrev pub run : ℕ → ℕ → List ℕ
run zero d = []
run (suc k) d = (suc k + d) ∷ run k d

-- A state that has not failed owes the rollback of the `k` depths above its own, innermost first.
abbrev IsWellFormed : TransactionState → Type 0
IsWellFormed t =
    (t.rollback_failed ≡ true)
    ⊎ ((k : ℕ) × (t.rollback_failed ≡ false) × (t.pending_rollback_depths ≡ run k t.depth))

run-concat : (k d : ℕ) → run k (suc d) ++ suc d ∷ [] ≡ run (suc k) d
run-concat zero d = ground arith
run-concat (suc k) d = ground (arith, run-concat k d)

increment_depth-IsWellFormed :
    (t : TransactionState)
    → t.pending_rollback_depths ≡ []
    → IsWellFormed t
    → IsWellFormed (increment_depth t)
unfolding increment_depth
increment_depth-IsWellFormed t e (inl h) = inl h
increment_depth-IsWellFormed t e (inr (k, f, p)) = inr (zero, f, e)

decrement_depth-IsWellFormed :
    (t : TransactionState)
    → t.pending_rollback_depths ≡ []
    → IsWellFormed t
    → IsWellFormed (decrement_depth t)
unfolding decrement_depth
decrement_depth-IsWellFormed t e (inl h) = ground arith
decrement_depth-IsWellFormed t e (inr (k, f, p)) = inr (zero, ground arith, ground arith)

-- Marking a rollback at depth d + 1 puts d + 1 behind the deeper ones.
mark-run :
    (t : TransactionState) (d k : ℕ)
    → t.depth ≡ d
    → t.pending_rollback_depths ≡ run k d
    → (j : ℕ) × ((mark_rollback_needed t).pending_rollback_depths
        ≡ run j (mark_rollback_needed t).depth)
unfolding mark_rollback_needed
mark-run t zero k e p = (k, ground arith)
mark-run t (suc d) k e p = (suc k, ground (arith, run-concat k d))

pub mark-failed :
    (t : TransactionState) → (mark_rollback_needed t).rollback_failed ≡ t.rollback_failed
unfolding mark_rollback_needed
mark-failed t = ground arith

mark_rollback_needed-IsWellFormed :
    (t : TransactionState) → IsWellFormed t → IsWellFormed (mark_rollback_needed t)
mark_rollback_needed-IsWellFormed t (inl f) = inl (mark-failed t ∙ f)
mark_rollback_needed-IsWellFormed t (inr (k, f, p)) =
    let (j, e) = mark-run t t.depth k refl p in inr (j, mark-failed t ∙ f, e)

module _ (E : Engine) (C : StatementCache E.Statement) (Q : AnsiSql) where
  -- How the loop over the queue ends: with an empty queue, or in the failed state.
  abbrev pub Settles : TransactionState → Result (Unit {0}) Error × TursoConnection E C → Type 0
  Settles t (ok _, c) =
      (c.transaction_state.rollback_failed ≡ t.rollback_failed)
      × (c.transaction_state.depth ≡ t.depth)
      × (c.transaction_state.pending_rollback_depths ≡ [])
  Settles t (err _, c) =
      (c.transaction_state.rollback_failed ≡ true) × (c.transaction_state.depth ≡ t.depth)

  settle-Settles :
      (d : ℕ) (answer : Result (Unit {0}) EngineError) (t : TransactionState)
      (c : TursoConnection E C) (rest : Result (Unit {0}) Error × TursoConnection E C)
      → c.transaction_state.depth ≡ t.depth
      → Settles t rest
      → Settles t (settle E C d answer c rest)
  unfolding settle mark_rollback_failed
  settle-Settles d (ok _) t c rest e h = h
  settle-Settles d (err e) t c rest same h =
      elim (Bool-cases (d == 1 && rollback_error_is_inactive_transaction E e)) [
        | inl skip ↦ rw skip h
        | inr failed ↦ rw failed (refl, same)
      ]

  pub clear_loop-Settles :
      (ds : List ℕ) (c : TursoConnection E C)
      → c.transaction_state.pending_rollback_depths ≡ ds
      → Settles c.transaction_state (clear_loop E C Q ds c)
  unfolding clear_loop
  clear_loop-Settles [] c e = (refl, refl, e)
  clear_loop-Settles (d ∷ ds) c e =
      settle-Settles d _ c.transaction_state _ _ refl (clear_loop-Settles ds _ refl)

  -- What `clear_pending_rollback` can do: refuse a failed connection, or end as the loop does.
  abbrev pub Cleared : TursoConnection E C → Result (Unit {0}) Error × TursoConnection E C → Type 0
  Cleared c out =
      ((c.transaction_state.rollback_failed ≡ true) × (out ≡ (err worker_crashed, c)))
      ⊎ ((c.transaction_state.rollback_failed ≡ false) × Settles c.transaction_state out)

  pub clear-Cleared : (c : TursoConnection E C) → Cleared c (clear_pending_rollback E C Q c)
  unfolding clear_pending_rollback
  clear-Cleared c =
      if_elim (Cleared c) c.transaction_state.rollback_failed (λ f. inl (f, refl))
        (λ f. inr (f, clear_loop-Settles _ c refl))

  abbrev pub IsSound : TursoConnection E C → Type 0
  IsSound c = IsWellFormed c.transaction_state

  -- Nothing is owed: the body behind a `clear_pending_rollback` that succeeds starts so.
  abbrev IsIdle : TursoConnection E C → Type 0
  IsIdle c =
      (c.transaction_state.rollback_failed ≡ false)
      × (c.transaction_state.pending_rollback_depths ≡ [])

  -- An action behind `clear_pending_rollback` keeps a property of states if it keeps it from every
  -- idle state and the failed states have it.
  pub clear_then :
      (P : TursoConnection E C → Type 0) (k : Action (TursoConnection E C) (Unit {0}))
      (c : TursoConnection E C)
      → P c
      → ((d : TursoConnection E C) → d.transaction_state.rollback_failed ≡ true → P d)
      → ((d : TursoConnection E C)
          → IsIdle d
          → d.transaction_state.depth ≡ c.transaction_state.depth
          → P (k d).1)
      → P ((clear_pending_rollback E C Q >> k) c).1
  clear_then P k c p failed idle = go (clear_pending_rollback E C Q c) (clear-Cleared c)
    where
      go :
          (out : Result (Unit {0}) Error × TursoConnection E C)
          → Cleared c out
          → P (and_then (λ _. k) out).1
      go (ok _, d) (inl (f, e)) = cc
      go (ok _, d) (inr (f, h)) = idle d (h.0 ∙ f, h.2) h.1
      go (err e, d) (inl (f, h)) = subst P (ap (λ o. o.1) (sym h)) p
      go (err e, d) (inr (f, h)) = failed d h.0

  idle-IsSound : (d : TursoConnection E C) → IsIdle d → IsSound d
  idle-IsSound d h = inr (zero, h.0, h.1)

  begin_cleared-IsIdle :
      (statement : Option Text) (d : TursoConnection E C)
      → IsIdle d
      → IsIdle (begin_cleared E C Q statement d).1
  unfolding begin_cleared increment_depth
  begin_cleared-IsIdle statement d h = ground arith

  end_cleared-IsIdle :
      (sql : ℕ → Text) (d : TursoConnection E C) → IsIdle d → IsIdle (end_cleared E C Q sql d).1
  unfolding end_cleared decrement_depth
  end_cleared-IsIdle sql d h = ground arith

  then-IsSound :
      (k : Action (TursoConnection E C) (Unit {0})) (c : TursoConnection E C)
      → IsSound c
      → ((d : TursoConnection E C) → IsIdle d → IsIdle (k d).1)
      → IsSound ((clear_pending_rollback E C Q >> k) c).1
  then-IsSound k c s keep =
      clear_then IsSound k c s (λ d f. inl f) (λ d h _. idle-IsSound (k d).1 (keep d h))

  -- Whatever the engine answers, `begin` leaves the queue of owed rollbacks in order: the depths
  -- just above the connection's depth, innermost first, or the connection has failed.
  pub begin-IsSound :
      (statement : Option Text) (c : TursoConnection E C)
      → IsSound c
      → IsSound (begin E C Q statement c).1
  unfolding begin
  begin-IsSound statement c s = then-IsSound _ c s (begin_cleared-IsIdle statement)

  pub commit-IsSound : (c : TursoConnection E C) → IsSound c → IsSound (commit E C Q c).1
  unfolding commit
  commit-IsSound c s = then-IsSound _ c s (end_cleared-IsIdle Q.commit_sql)

  pub rollback-IsSound : (c : TursoConnection E C) → IsSound c → IsSound (rollback E C Q c).1
  unfolding rollback
  rollback-IsSound c s = then-IsSound _ c s (end_cleared-IsIdle Q.rollback_sql)

  pub start_rollback-IsSound :
      (c : TursoConnection E C) → IsSound c → IsSound (start_rollback E C Q c)
  unfolding start_rollback
  start_rollback-IsSound c s = mark_rollback_needed-IsWellFormed c.transaction_state s
