-- ===== src/Migrate/Runs/Laws.antt =====
-- crates/sqlx-turso-core/src/migrate.rs: what the queries of migrations do to the database. What the
-- engine does with their texts is stated as hypotheses; that they pay what the connection owes first
-- is shown of `fetch_many`.
use sqlx_turso.Base.{
  Result, ok, err, and_then, ◌≡◌, refl, sym, ap, ◌∙◌, ◌⊎◌, inl, inr, true, none, List, [], ◌∷◌,
}
use sqlx_turso.Text.{Text}
use sqlx_turso.Error.{Error}
use sqlx_turso.Engine.{Engine, AnsiSql}
use sqlx_turso.Statement.{StatementCache}
use sqlx_turso.Action.{Action}
use sqlx_turso.Connection.{TursoConnection, clear_pending_rollback}
use sqlx_turso.Transaction.Invariant.{Cleared, clear-Cleared}
use sqlx_turso.Transaction.Laws.{Transactional}
use sqlx_turso.Transaction.Refinement.{Nested, Holds-same, Refines, Settled}
use sqlx_turso.Transaction.Refinement.Loop.{ClearDone, clear-ClearDone}
use sqlx_turso.Transaction.Refinement.Failing.{Attains}
use sqlx_turso.Executor.Inspect.{inspect_sql}
use sqlx_turso.Executor.Fetch.{
  Item, ItemStream, iter, State, bound_values, fetch_inspected, fetch_many_sql,
}
use sqlx_turso.Executor.Fetch.Optional.{fetch_many}
use sqlx_turso.Executor.Fetch.Cached.{CacheLaws, Prepares, Outcome}
use sqlx_turso.Executor.Fetch.Owned.{Held, RunsOwn}
use sqlx_turso.Executor.Fetch.Calls.{clear-Held, fetch_many_sql-Outcome}
use sqlx_turso.Migrate.Identifier.{SqliteIdentifierPath}
use sqlx_turso.Migrate.Runner.{Bound, Collector, bound_arguments, collected, run_query}
use sqlx_turso.Migrate.Runner.Quiet.{Same, Marks}
use sqlx_turso.Migrate.Runner.Leaves.{Ran, queried, Leaves, fetch_inspected-Leaves}
use sqlx_turso.Migrate.Runs.{update_text, insert_text, delete_text}

module _ {Db : Type 0} where
  -- Work on the database, in the innermost transaction.
  abbrev pub on_db : (Db → Db) → Nested Db → Nested Db
  on_db f n = record n { current = f n.current }

-- The texts that are written for a table of migrations; each is one statement.
abbrev OfTable : Text → Type 0
OfTable sql =
    (table : SqliteIdentifierPath) × ((sql ≡ insert_text table)
      ⊎ ((sql ≡ update_text table) ⊎ (sql ≡ delete_text table)))

module _ (E : Engine) (C : StatementCache E.Statement) (Q : AnsiSql) (Db : Type 0)
    (T : Transactional E Q Db) where
  -- A text that may hold several statements: where one fails, those before it have taken effect.
  abbrev pub Steps :
      {A : Type 0} {X : Type 0} → (Db → Db) → Nested Db → Result A X × TursoConnection E C → Type 0
  Steps f n (ok _, d) = Refines E C Q Db T d (on_db f n)
  Steps f n (err _, d) =
      (d.transaction_state.rollback_failed ≡ true)
      ⊎ ((x : Db) × Refines E C Q Db T d (on_db (λ _. x) n))

  abbrev Anything : Db → Db → Type 0
  Anything x y = Unit

  abbrev Stays : Db → Db → Type 0
  Stays x y = y ≡ x

  module _ (L : CacheLaws C) (K : Collector E) where
    -- What is asked of the engine and of sqlx-core, with no word of the connection. The texts of
    -- migrations are to be plain: without transaction statements. A statement of one of the table's
    -- texts that fails leaves the database.
    pub record QueryLaws : Type 1 where
      pub effect : Text → List Bound → Db → Db
      pub Plain : Text → Type 0
      pub prepare_law : (q : Text) (s : E.State) → Same E C Q Db T L s (E.prepare q s).1
      pub iter_law :
          (items : List (Item E.F64)) (s : E.State) → K.collect (iter items) s ≡ (ok tt, s)
      pub batch_law :
          (sql : Text) (s : E.State)
          → Plain sql
          → Ran E C Q Db T L K (effect sql []) Anything s (E.execute_batch sql s)
      pub query_law :
          (sql : Text) (st : E.Statement) (s : E.State)
          → Plain sql
          → Prepares E sql st
          → Ran E C Q Db T L K (effect sql []) Anything s (queried E C Q Db T L K st [] s)
      pub bound_law :
          (sql : Text) (b : Bound) (bs : List Bound) (st : E.Statement) (s : E.State)
          → OfTable sql
          → Prepares E sql st
          → Ran E C Q Db T L K
              (effect sql (b ∷ bs))
              Stays
              s
              (queried E C Q Db T L K st (bound_values E C (bound_arguments (b ∷ bs))) s)

    -- A settled connection behind a change of the engine that keeps the marks.
    moved-Refines :
        (d o : TursoConnection E C) (n : Nested Db) (x : Db)
        → Settled E C Q Db T d n
        → o.transaction_state ≡ d.transaction_state
        → T.db o.raw ≡ x
        → Marks E C Q Db T L d.raw o.raw
        → Refines E C Q Db T o (on_db (λ _. x) n)
    moved-Refines d o n x s e h m = record {
      dropped = [];
      holds = Holds-same E C Q Db T d.raw o.raw n.marks (λ j _. m j) s.holds;
      depth_is = ap (λ t. t.depth) e ∙ s.depth_is;
      owed = ap (λ t. t.pending_rollback_depths) e ∙ s.owed;
      current_is = sym h;
      healthy = ap (λ t. t.rollback_failed) e ∙ s.healthy;
    }

    Leaves-Steps :
        (f : Db → Db) (d : TursoConnection E C) (n : Nested Db)
        (out : Result (Unit {0}) Error × TursoConnection E C)
        → Settled E C Q Db T d n
        → Leaves E C Q Db T L K f Anything d out
        → Steps f n out
    Leaves-Steps f d n (ok _, o) s (e, k, (h, m)) =
        moved-Refines d o n (f n.current) s e (h ∙ ap f (sym s.current_is)) m
    Leaves-Steps f d n (err _, o) s (e, k, (h, m)) =
        inr (T.db o.raw, moved-Refines d o n (T.db o.raw) s e refl m)

    Leaves-Attains :
        (f : Db → Db) (d : TursoConnection E C) (n : Nested Db)
        (out : Result (Unit {0}) Error × TursoConnection E C)
        → Settled E C Q Db T d n
        → Leaves E C Q Db T L K f Stays d out
        → Attains E C Q Db T (on_db f n) n out
    Leaves-Attains f d n (ok _, o) s (e, k, (h, m)) =
        moved-Refines d o n (f n.current) s e (h ∙ ap f (sym s.current_is)) m
    Leaves-Attains f d n (err _, o) s (e, k, (h, m)) =
        inr (moved-Refines d o n n.current s e (h ∙ sym s.current_is) m)

    module _ (sql : Text) (bs : List Bound) where
      -- The query behind the clearing.
      abbrev asked : Action (State E C) (Unit {0})
      asked d =
          and_then (collected E C Q K)
            (fetch_inspected E C (inspect_sql sql) sql K.persistent (bound_arguments bs) d)

      -- A query by what it does where nothing is owed: with a failed rollback it fails.
      paid_first :
          (P : Result (Unit {0}) Error × State E C → Type 0) (c : State E C) (n : Nested Db)
          → ((e : Error) (d : State E C)
              → d.transaction_state.rollback_failed ≡ true
              → P (err e, d))
          → ((d : State E C) → Settled E C Q Db T d n → Held E C L d → P (asked d))
          → Refines E C Q Db T c n
          → Held E C L c
          → P (run_query E C Q K sql bs c)
      unfolding run_query fetch_many fetch_many_sql
      paid_first P c n failed settled h k =
          go (clear_pending_rollback E C Q c) (clear-ClearDone E C Q Db T c n h)
            (clear-Cleared E C Q c) (clear-Held E C L Q c k)
        where
          go :
              (out : Result (Unit {0}) Error × State E C)
              → ClearDone E C Q Db T n out
              → Cleared E C Q c out
              → Held E C L out.1
              → P (
                  and_then (collected E C Q K) (
                    and_then
                      (λ _.
                        fetch_inspected E C (inspect_sql sql) sql K.persistent (bound_arguments bs))
                      out))
          go (ok u, d) s g k = settled d s k
          go (err e, d) s (inl (f, same)) k =
              failed e d (ap (λ o. o.1.transaction_state.rollback_failed) same ∙ f)
          go (err e, d) s (inr (f, ends)) k = failed e d ends.0

      pub run_query-failed :
          (c : State E C)
          → c.transaction_state.rollback_failed ≡ true
          → (run_query E C Q K sql bs c).1.transaction_state.rollback_failed ≡ true
      unfolding run_query fetch_many fetch_many_sql clear_pending_rollback
      run_query-failed c h = rw h refl

      pub run_query-Held :
          (c : State E C) → Held E C L c → Held E C L (run_query E C Q K sql bs c).1
      unfolding run_query fetch_many
      run_query-Held c h =
          go (fetch_many_sql E C Q sql K.persistent (bound_arguments bs) c)
            (fetch_many_sql-Outcome E C L Q sql K.persistent (bound_arguments bs) c h)
        where
          go :
              (out : Result (ItemStream E) Error × State E C)
              → Outcome E C L (RunsOwn E C L sql) out
              → Held E C L (and_then (collected E C Q K) out).1
          go (ok stream, d) k = k.0
          go (err e, d) k = k

    module _ (q : QueryLaws) where
      pub text-Steps :
          (sql : Text) (c : State E C) (n : Nested Db)
          → q.Plain sql
          → Refines E C Q Db T c n
          → Held E C L c
          → Steps (q.effect sql []) n (run_query E C Q K sql [] c)
      text-Steps sql c n p h k =
          paid_first sql [] (Steps (q.effect sql []) n) c n (λ e d f. inl f)
            (λ d s held. Leaves-Steps (q.effect sql []) d n (asked sql [] d) s (
              fetch_inspected-Leaves E C Q Db T L K (q.effect sql []) Anything q.prepare_law
                q.iter_law (λ _. tt) sql none (inspect_sql sql) K.persistent d
                (λ st t r. q.query_law sql st t p r, λ _ t. q.batch_law sql t p) held))
            h k

      pub bound-Attains :
          (sql : Text) (b : Bound) (bs : List Bound) (c : State E C) (n : Nested Db)
          → OfTable sql
          → Refines E C Q Db T c n
          → Held E C L c
          → Attains E C Q Db T
              (on_db (q.effect sql (b ∷ bs)) n)
              n
              (run_query E C Q K sql (b ∷ bs) c)
      bound-Attains sql b bs c n o h k =
          paid_first sql (b ∷ bs) (Attains E C Q Db T (on_db (q.effect sql (b ∷ bs)) n) n) c n
            (λ e d f. inl f)
            (λ d s held. Leaves-Attains (q.effect sql (b ∷ bs)) d n (asked sql (b ∷ bs) d) s (
              fetch_inspected-Leaves E C Q Db T L K (q.effect sql (b ∷ bs)) Stays q.prepare_law
                q.iter_law (λ _. refl) sql (bound_arguments (b ∷ bs)) (inspect_sql sql) K.persistent
                d (λ st t r. q.bound_law sql b bs st t o r, λ absent t. cc) held))
            h k
