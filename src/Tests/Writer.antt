-- ===== src/Tests/Writer.antt =====
-- A toy engine whose queries write: each adds the lengths of its text and of what is bound to the
-- database.
use sqlx_turso.Base.{
  length, Result, ok, err, ℕ, zero, suc, ◌+◌, ◌≡◌, refl, sym, ap, true, false, none, some, List, [],
  ◌∷◌,
}
use sqlx_turso.Text.{Text}
use sqlx_turso.Error.{EngineError, Error}
use sqlx_turso.Engine.{Engine}
use sqlx_turso.Connection.{rollback_error_is_inactive_transaction}
use sqlx_turso.Transaction.Laws.{Transactional}
use sqlx_turso.Transaction.Refinement.Failing.{FailsCleanly}
use sqlx_turso.Executor.Fetch.{
  Item, FetchState, ItemStream, iter, try_unfold, Polled, next, bound_values,
}
use sqlx_turso.Executor.Fetch.Cached.{Prepares}
use sqlx_turso.Migrate.Runner.{Bound, Collector, bound_arguments}
use sqlx_turso.Migrate.Runner.Leaves.{Ran, queried}
use sqlx_turso.Migrate.Runs.Laws.{QueryLaws}
use sqlx_turso.Tests.Toy.{ToyState, toy, toy_sql, begin-toy, rollback-toy, toy_inert}
use sqlx_turso.Tests.Caches.{listed, listed_laws}

module _ (E : Engine) where
  abbrev settled_poll :
      (FetchState E → E.State → Result (Unit {0}) Error × E.State)
      → Polled E
      → Result (Unit {0}) Error × E.State
  settled_poll more (err e, s) = (err e, s)
  settled_poll more (ok none, s) = (ok tt, s)
  settled_poll more (ok (some (item, f)), s) = more f s

  -- Polls until the end of the stream, or for so many times.
  unfoldable drained : ℕ → FetchState E → E.State → Result (Unit {0}) Error × E.State
  unfolding next
  drained zero f s = (ok tt, s)
  drained (suc fuel) f s = settled_poll (λ g t. drained fuel g t) (next E f s)

  unfoldable pub taken : ItemStream E → E.State → Result (Unit {0}) Error × E.State
  unfolding drained
  taken (iter items) s = (ok tt, s)
  taken (try_unfold f) s = drained 9 f s

  abbrev pub to_the_end : Collector E
  to_the_end = record { persistent = true; collect = taken }

abbrev written : ℕ → ToyState → ToyState
written n s = record s { value = s.value + n }

abbrev pub writer : Engine
writer = record {
  State = ToyState;
  Statement = Text;
  Rows = List ℕ;
  Row = ℕ;
  F64 = ℕ;
  display = toy.display;
  execute = toy.execute;
  execute_batch = λ sql s. (ok tt, written (length sql + 0) s);
  prepare = λ sql s. (ok sql, s);
  columns = toy.columns;
  query = λ st values s. (ok [], written (length st + length values) s);
  next = toy.next;
  get_value = toy.get_value;
  n_change = λ _ s. s.value;
}

pub inactive-writer :
    (s : ToyState) {x : ℕ} {e : EngineError}
    → s.marks 0 ≡ some x
    → (writer.execute (3 ∷ 1 ∷ []) s).0 ≡ err e
    → rollback_error_is_inactive_transaction writer e ≡ false
inactive-writer s m h = cc (rw m at h)

abbrev pub writer_laws : Transactional writer toy_sql ℕ
writer_laws = record {
  db = λ s. s.value;
  saved = λ s. s.marks;
  Opens = λ l sql. sql ≡ 1 ∷ l ∷ [];
  opens_ansi = λ l. refl;
  begin_law = begin-toy;
  commit_law = λ l s h. (refl, λ j p. refl);
  rollback_law = rollback-toy;
  inactive_law = inactive-writer;
}

pub writer_inert : FailsCleanly writer_laws
writer_inert = record { failed_law = toy_inert.failed_law }

abbrev pub added : Text → List Bound → ℕ → ℕ
added sql bs x = x + (length sql + length (bound_values writer listed (bound_arguments bs)))

module _ (Bad : ℕ → ℕ → Type 0) where
  pub query-Ran :
      (sql : Text) (st : Text) (bs : List Bound) (s : ToyState)
      → Prepares writer sql st
      → Ran writer listed toy_sql ℕ writer_laws listed_laws
          (to_the_end writer)
          (added sql bs)
          Bad
          s
          (queried writer listed toy_sql ℕ writer_laws listed_laws
            (to_the_end writer)
            st
            (bound_values writer listed (bound_arguments bs))
            s)
  unfolding taken drained next
  query-Ran sql st bs s (t, e) =
      let same : sql ≡ st = cc in
      (
        ap
            (λ (w : Text).
              s.value + (length w + length (bound_values writer listed (bound_arguments bs))))
            (sym same),
        λ j. refl,
      )

pub iter-taken : (items : List (Item ℕ)) (s : ToyState) → taken writer (iter items) s ≡ (ok tt, s)
unfolding taken
iter-taken items s = refl

abbrev pub writer_queries :
    QueryLaws writer listed toy_sql ℕ writer_laws listed_laws (to_the_end writer)
writer_queries = record {
  effect = added;
  Plain = λ _. Unit {0};
  prepare_law = λ q s. (refl, λ j. refl);
  iter_law = iter-taken;
  batch_law = λ sql s p. (refl, λ j. refl);
  query_law = λ sql st s p r. query-Ran (λ _ _. Unit {0}) sql st [] s r;
  bound_law = λ sql b bs st s o r. query-Ran (λ x y. y ≡ x) sql st (b ∷ bs) s r;
}
