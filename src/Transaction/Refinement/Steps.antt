-- ===== src/Transaction/Refinement/Steps.antt =====
-- Each call of the manager implements its step of the specification.
use sqlx_turso.Base.{
  ltb, ◌==◌, if_elim, length, Result, ok, err, map_err, and_then, ℕ, suc, ◌<◌, ◌≡◌, refl, sym, ap,
  subst, ◌∙◌, false, Option, none, some, List, [], ◌∷◌, ◌++◌, append_assoc, arith,
}
use sqlx_turso.Text.{Text}
use sqlx_turso.Error.{Error, EngineError, from_turso}
use sqlx_turso.Engine.{Engine, AnsiSql}
use sqlx_turso.Statement.{StatementCache}
use sqlx_turso.Action.{Action, ◌>>◌}
use sqlx_turso.Connection.{
  increment_depth, decrement_depth, mark_rollback_needed, TursoConnection, clear_pending_rollback,
}
use sqlx_turso.Transaction.{execute_raw, on_state, begin_cleared, end_cleared, start_rollback}
use sqlx_turso.Transaction.Laws.{Transactional}
use sqlx_turso.Transaction.Refinement.{
  Nested, begun, committed_from, rolled_back_from, pendings-drop, seen-drop, Holds, Holds-same,
  Refines, Settled, Settled-Refines,
}
use sqlx_turso.Transaction.Refinement.Loop.{ClearDone, clear-ClearDone}

ltb-zero : (n : ℕ) → ltb 0 n ≡ false → n ≡ 0
ltb-zero n h = ground arith

module _ (E : Engine) (C : StatementCache E.Statement) (Q : AnsiSql) (Db : Type 0)
    (T : Transactional E Q Db) where
  open T use {db, saved, Opens, opens_ansi, begin_law, commit_law, rollback_law, inactive_law}

  -- A call that reports success leaves a connection that stands for `n`.
  abbrev pub Implements : Nested Db → Result (Unit {0}) Error × TursoConnection E C → Type 0
  Implements n (ok _, c) = Refines E C Q Db T c n
  Implements n (err _, c) = Unit

  pub and_then-Implements :
      (n n' : Nested Db) (k : Action (TursoConnection E C) (Unit {0}))
      (out : Result (Unit {0}) Error × TursoConnection E C)
      → Implements n out
      → ((d : TursoConnection E C) → Refines E C Q Db T d n → Implements n' (k d))
      → Implements n' (and_then (λ _. k) out)
  and_then-Implements n n' k (ok _, d) h next = next d h
  and_then-Implements n n' k (err e, d) h next = tt

  -- A body that implements `n'` from every settled connection does so behind the clearing.
  pub clear_then-Implements :
      (k : Action (TursoConnection E C) (Unit {0})) (n n' : Nested Db)
      → ((d : TursoConnection E C) → Settled E C Q Db T d n → Implements n' (k d))
      → (c : TursoConnection E C) → Refines E C Q Db T c n
      → Implements n' ((clear_pending_rollback E C Q >> k) c)
  clear_then-Implements k n n' body c h =
      go (clear_pending_rollback E C Q c) (clear-ClearDone E C Q Db T c n h)
    where
      go :
          (out : Result (Unit {0}) Error × TursoConnection E C)
          → ClearDone E C Q Db T n out
          → Implements n' (and_then (λ _. k) out)
      go (ok _, d) s = body d s
      go (err e, d) s = tt

  -- A custom statement opens level 0.
  abbrev pub Opening : Option Text → Type 0
  Opening none = Unit
  Opening (some sql) = Opens 0 sql

  opened-Implements :
      (sql : Text) (d : TursoConnection E C) (n : Nested Db)
      → Settled E C Q Db T d n
      → Opens (length n.marks) sql
      → Implements (begun n) ((execute_raw E C Q sql >> on_state E C Q increment_depth) d)
  unfolding execute_raw increment_depth
  opened-Implements sql d n h opens = go _ refl
    where
      go :
          (answer : Result (Unit {0}) EngineError)
          → (E.execute sql d.raw).0 ≡ answer
          → Implements (begun n) (
              and_then
                (λ _. on_state E C Q increment_depth)
                (map_err (from_turso E.display) answer, record d { raw = (E.execute sql d.raw).1 }))
      go (err e) a = tt
      go (ok _) a =
          let (same, marked, kept) = begin_law (length n.marks) sql d.raw opens a in
          record {
            dropped = [];
            holds = (
              marked ∙ ap some (sym h.current_is),
              Holds-same E C Q Db T _ _ n.marks kept h.holds,
            );
            depth_is = omega (arith, h.depth_is);
            owed = h.owed;
            current_is = h.current_is ∙ sym same;
            healthy = h.healthy;
          }

  pub begin_cleared-Implements :
      (statement : Option Text) (n : Nested Db) (d : TursoConnection E C)
      → Opening statement
      → Settled E C Q Db T d n
      → Implements (begun n) (begin_cleared E C Q statement d)
  unfolding begin_cleared
  begin_cleared-Implements none n d o h =
      opened-Implements (Q.begin_sql d.transaction_state.depth) d n h (
        subst (λ l. Opens (length n.marks) (Q.begin_sql l)) (sym h.depth_is)
          (opens_ansi (length n.marks)))
  begin_cleared-Implements (some sql) n d o h =
      if_elim (Implements (begun n)) (ltb 0 d.transaction_state.depth) (λ _. tt)
        λ top.
          opened-Implements sql d n h
            (subst (λ l. Opens l sql) (omega (arith, h.depth_is, ltb-zero _ top)) o)

  -- The last step of `commit` and `rollback`, from what the engine's answer leaves.
  ended-Implements :
      (sql : Text) (d : TursoConnection E C) (x : Db) (y : Db) (ys : List Db)
      → d.transaction_state.depth ≡ suc (length ys)
      → d.transaction_state.pending_rollback_depths ≡ []
      → d.transaction_state.rollback_failed ≡ false
      → Holds E C Q Db T d.raw ys
      → ((E.execute sql d.raw).0 ≡ ok tt
          → (db (E.execute sql d.raw).1 ≡ x)
            × ((j : ℕ) → j < length ys → saved (E.execute sql d.raw).1 j ≡ saved d.raw j))
      → Implements
          (record { current = x; marks = ys })
          ((execute_raw E C Q sql >> on_state E C Q decrement_depth) d)
  unfolding execute_raw decrement_depth
  ended-Implements sql d x y ys depth_is owed healthy holds law = go _ refl
    where
      go :
          (answer : Result (Unit {0}) EngineError)
          → (E.execute sql d.raw).0 ≡ answer
          → Implements
              (record { current = x; marks = ys })
              (and_then
                (λ _. on_state E C Q decrement_depth)
                (map_err (from_turso E.display) answer, record d { raw = (E.execute sql d.raw).1 }))
      go (err e) a = tt
      go (ok _) a =
          let (same, kept) = law a in
          record {
            dropped = [];
            holds = Holds-same E C Q Db T _ _ ys kept holds;
            depth_is = ground arith;
            owed = ground arith;
            current_is = sym same;
            healthy = ground arith;
          }

  pub commit_cleared-Implements :
      (x : Db) (ms : List Db) (d : TursoConnection E C)
      → Settled E C Q Db T d (record { current = x; marks = ms })
      → Implements (committed_from x ms) (end_cleared E C Q Q.commit_sql d)
  unfolding end_cleared
  commit_cleared-Implements x [] d h =
      if_elim (Implements (committed_from x [])) (d.transaction_state.depth == 0)
        (λ _. Settled-Refines E C Q Db T h) (λ f. absurd (ground (arith, h.depth_is)))
  commit_cleared-Implements x (y ∷ ys) d h =
      if_elim (Implements (committed_from x (y ∷ ys))) (d.transaction_state.depth == 0)
        (λ f. absurd (ground (arith, h.depth_is)))
        λ _.
          subst
            (λ l.
              Implements (committed_from x (y ∷ ys))
                ((execute_raw E C Q (Q.commit_sql l) >> on_state E C Q decrement_depth) d))
            (sym h.depth_is)
            (ended-Implements (Q.commit_sql (suc (length ys))) d x y ys h.depth_is h.owed h.healthy
              h.holds.1
              (λ a.
                let (same, kept) = commit_law (length ys) d.raw a in
                (same ∙ sym h.current_is, kept)))

  pub rollback_cleared-Implements :
      (x : Db) (ms : List Db) (d : TursoConnection E C)
      → Settled E C Q Db T d (record { current = x; marks = ms })
      → Implements (rolled_back_from x ms) (end_cleared E C Q Q.rollback_sql d)
  unfolding end_cleared
  rollback_cleared-Implements x [] d h =
      if_elim (Implements (rolled_back_from x [])) (d.transaction_state.depth == 0)
        (λ _. Settled-Refines E C Q Db T h) (λ f. absurd (ground (arith, h.depth_is)))
  rollback_cleared-Implements x (y ∷ ys) d h =
      if_elim (Implements (rolled_back_from x (y ∷ ys))) (d.transaction_state.depth == 0)
        (λ f. absurd (ground (arith, h.depth_is)))
        λ _.
          subst
            (λ l.
              Implements (rolled_back_from x (y ∷ ys))
                ((execute_raw E C Q (Q.rollback_sql l) >> on_state E C Q decrement_depth) d))
            (sym h.depth_is)
            (ended-Implements (Q.rollback_sql (suc (length ys))) d y y ys h.depth_is h.owed
              h.healthy h.holds.1 (rollback_law (length ys) d.raw y h.holds.0))

  pub start_rollback-Refines :
      (c : TursoConnection E C) (x : Db) (ms : List Db)
      → Refines E C Q Db T c (record { current = x; marks = ms })
      → Refines E C Q Db T (start_rollback E C Q c) (rolled_back_from x ms)
  unfolding start_rollback mark_rollback_needed decrement_depth
  start_rollback-Refines c x [] h = record {
    dropped = h.dropped;
    holds = h.holds;
    depth_is = ground (arith, h.depth_is);
    owed = ground (arith, h.depth_is, h.owed);
    current_is = h.current_is;
    healthy = ground (arith, h.depth_is, h.healthy);
  }
  start_rollback-Refines c x (y ∷ ys) h = record {
    dropped = h.dropped ++ y ∷ [];
    holds = subst (Holds E C Q Db T c.raw) (sym (append_assoc h.dropped (y ∷ []) ys)) h.holds;
    depth_is = ground (arith, h.depth_is);
    owed = ground (arith, h.depth_is, h.owed, pendings-drop h.dropped y ys);
    current_is = sym (seen-drop (db c.raw) h.dropped y);
    healthy = ground (arith, h.depth_is, h.healthy);
  }
