-- ===== src/Transaction/Refinement/Loop.antt =====
-- The rollbacks that are owed restore what the specification holds.
use sqlx_turso.Base.{
  if_elim, length, Result, ok, err, ℕ, zero, suc, ◌≡◌, refl, sym, subst, ◌∙◌, some, List, [], ◌∷◌,
  ◌++◌, arith,
}
use sqlx_turso.Error.{Error, EngineError}
use sqlx_turso.Engine.{Engine, AnsiSql}
use sqlx_turso.Statement.{StatementCache}
use sqlx_turso.Connection.{TursoConnection, settle, sent, clear_loop, clear_pending_rollback}
use sqlx_turso.Transaction.Invariant.{Settles, clear_loop-Settles}
use sqlx_turso.Transaction.Laws.{Transactional}
use sqlx_turso.Transaction.Refinement.{Nested, seen, pendings, Holds, Holds-same, Refines, Settled}

module _ (E : Engine) (C : StatementCache E.Statement) (Q : AnsiSql) (Db : Type 0)
    (T : Transactional E Q Db) where
  open T use {db, saved, Opens, opens_ansi, begin_law, commit_law, rollback_law, inactive_law}

  -- The outcome of the loop over the queue, from a connection that owes `ys` above `m`.
  abbrev LoopDone : List Db → List Db → Db → Result (Unit {0}) Error × TursoConnection E C → Type 0
  LoopDone ys m x (ok _, c) =
      Holds E C Q Db T c.raw m
      × (c.transaction_state.pending_rollback_depths ≡ [])
      × (db c.raw ≡ seen x ys)
  LoopDone ys m x (err _, c) = Unit

  settle-LoopDone :
      (y : Db) (ys m : List Db) (s : E.State) (c : TursoConnection E C)
      (rest : Result (Unit {0}) Error × TursoConnection E C)
      (answer : Result (Unit {0}) EngineError)
      → saved s (length (ys ++ m)) ≡ some y
      → (E.execute (Q.rollback_sql (suc (length (ys ++ m)))) s).0 ≡ answer
      → (answer ≡ ok tt → LoopDone ys m y rest)
      → LoopDone ys m y (settle E C (suc (length (ys ++ m))) answer c rest)
  unfolding settle
  settle-LoopDone y ys m s c rest (ok _) held e done = done refl
  settle-LoopDone y ys m s c rest (err e) held answered done = go (length (ys ++ m)) held answered
    where
      go :
          (l : ℕ)
          → saved s l ≡ some y
          → (E.execute (Q.rollback_sql (suc l)) s).0 ≡ err e
          → LoopDone ys m y (settle E C (suc l) (err e) c rest)
      go zero h a = rw (inactive_law s h a) tt
      go (suc l) h a = ground arith

  loop-LoopDone :
      (ys m : List Db) (c : TursoConnection E C)
      → c.transaction_state.pending_rollback_depths ≡ pendings ys m
      → Holds E C Q Db T c.raw (ys ++ m)
      → LoopDone ys m (db c.raw) (clear_loop E C Q (pendings ys m) c)
  unfolding clear_loop
  loop-LoopDone [] m c p h = (h, p, refl)
  loop-LoopDone (y ∷ ys) m c p (held, rest) =
      let d = suc (length (ys ++ m)) in
      let c' = sent E C Q d (pendings ys m) c in
      settle-LoopDone y ys m c.raw c' _ _ held refl λ e.
        let (restored, kept) = rollback_law (length (ys ++ m)) c.raw y held e in
        subst (λ x. LoopDone ys m x (clear_loop E C Q (pendings ys m) c')) restored
          (loop-LoopDone ys m c' refl (Holds-same E C Q Db T c.raw c'.raw (ys ++ m) kept rest))

  -- What a `clear_pending_rollback` that succeeds should leave.
  abbrev pub ClearDone : Nested Db → Result (Unit {0}) Error × TursoConnection E C → Type 0
  ClearDone n (ok _, c) = Settled E C Q Db T c n
  ClearDone n (err _, c) = Unit

  -- On a connection that stands for a state of nested transactions, a `clear_pending_rollback` that
  -- succeeds leaves the engine with that state's database, and nothing owed.
  pub clear-ClearDone :
      (c : TursoConnection E C) (n : Nested Db)
      → Refines E C Q Db T c n
      → ClearDone n (clear_pending_rollback E C Q c)
  unfolding clear_pending_rollback
  clear-ClearDone c n h =
      if_elim (ClearDone n) c.transaction_state.rollback_failed (λ f. cc)
        λ f.
          go (clear_loop E C Q c.transaction_state.pending_rollback_depths c)
            (clear_loop-Settles E C Q c.transaction_state.pending_rollback_depths c refl)
            (subst (λ ds. LoopDone h.dropped n.marks (db c.raw) (clear_loop E C Q ds c))
              (sym h.owed) (loop-LoopDone h.dropped n.marks c h.owed h.holds))
    where
      go :
          (out : Result (Unit {0}) Error × TursoConnection E C)
          → Settles E C Q c.transaction_state out
          → LoopDone h.dropped n.marks (db c.raw) out
          → ClearDone n out
      go (err e, d) s l = tt
      go (ok _, d) s l = record {
        holds = l.0;
        depth_is = s.1 ∙ h.depth_is;
        owed = l.1;
        current_is = h.current_is ∙ sym l.2;
        healthy = s.0 ∙ h.healthy;
      }
