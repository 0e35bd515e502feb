-- ===== src/Executor/Fetch/Optional.antt =====
-- crates/sqlx-turso-core/src/executor.rs: the other methods of the executor. `fetch_optional` polls the
-- stream until a row comes; two polls are enough, so the fuel of its loop is two.
use sqlx_turso.Base.{
  Result, ok, err, ℕ, zero, suc, ◌≡◌, refl, ap, ◌∙◌, Bool, Option, none, some, List, [], ◌∷◌, map,
  arith,
}
use sqlx_turso.Text.{Text}
use sqlx_turso.Error.{EngineError, Message, Error, encode}
use sqlx_turso.Engine.{Engine, AnsiSql}
use sqlx_turso.Column.{TursoColumn}
use sqlx_turso.Statement.{StatementCache, TursoStatement}
use sqlx_turso.Value.{TursoValue}
use sqlx_turso.Row.{TursoRow, with_shared_columns}
use sqlx_turso.Arguments.{TursoArguments}
use sqlx_turso.Action.{Action, ◌>>=◌, pure, fail}
use sqlx_turso.Executor.Fetch.{
  Item, left, right, RowsState, FetchState, rows_state, query_result, done, ItemStream, iter,
  try_unfold, row_values, Polled, emit_values, emit_read, emit, begin_row, next, State, prepare_sql,
  fetch_many_sql,
}
use sqlx_turso.Executor.Fetch.Drain.{Yields, no_more, one_more, Decodes, items_of}

-- `sqlx_core::describe::Describe`; the parameters are never given.
pub record Describe : Type 0 where
  pub columns : List TursoColumn
  pub nullable : List (Option Bool)

abbrev pub first_right : {F : Type 0} → List (Item F) → Option (TursoRow F)
first_right [] = none
first_right (left _ ∷ items) = first_right items
first_right (right row ∷ items) = some row

module _ (E : Engine) where
  abbrev pub Found : Type 0
  Found = Result (Option (TursoRow E.F64)) Error × E.State

  -- A round of the loop, by what the poll gives.
  abbrev pub settle_item : (FetchState E → E.State → Found) → Polled E → Found
  settle_item more (err e, s) = (err e, s)
  settle_item more (ok none, s) = (ok none, s)
  settle_item more (ok (some (left _, f)), s) = more f s
  settle_item more (ok (some (right row, f)), s) = (ok (some row), s)

  unfoldable pub optional_row : ℕ → FetchState E → E.State → Found
  unfolding next
  optional_row zero f s = (ok none, s)
  optional_row (suc fuel) f s = settle_item (λ g t. optional_row fuel g t) (next E f s)

module _ (E : Engine) (C : StatementCache E.Statement) (Q : AnsiSql) where
  -- `fetch_many`, where `take_arguments` has given the arguments.
  abbrev pub fetch_taken :
      Text
      → Bool
      → Result (Option (TursoArguments E.F64)) Message
      → Action (State E C) (ItemStream E)
  fetch_taken sql persistent (err e) = fail (encode e)
  fetch_taken sql persistent (ok arguments) = fetch_many_sql E C Q sql persistent arguments

  unfoldable pub fetch_many :
      Text
      → Bool
      → Result (Option (TursoArguments E.F64)) Message
      → Action (State E C) (ItemStream E)
  unfolding fetch_many_sql
  fetch_many sql persistent arguments = fetch_taken sql persistent arguments

  -- The loop over the stream.
  unfoldable pub optional_of : ItemStream E → Action (State E C) (Option (TursoRow E.F64))
  unfolding optional_row
  optional_of (iter items) c = (ok (first_right items), c)
  optional_of (try_unfold f) c =
      let found = optional_row E 2 f c.raw in (found.0, record c { raw = found.1 })

  unfoldable pub fetch_optional :
      Text
      → Bool
      → Result (Option (TursoArguments E.F64)) Message
      → Action (State E C) (Option (TursoRow E.F64))
  unfolding fetch_many optional_of
  fetch_optional sql persistent arguments = do
    stream ← fetch_many sql persistent arguments
    optional_of stream

  -- `prepare_with`
  unfoldable pub prepare_with : Text → Action (State E C) (TursoStatement E.Statement)
  unfolding prepare_sql
  prepare_with sql = prepare_sql E C sql

  unfoldable pub describe : Text → Action (State E C) Describe
  unfolding prepare_sql
  describe sql = do
    statement ← prepare_sql E C sql
    pure (record { columns = statement.columns; nullable = map (λ _. none) statement.columns })

module _ (E : Engine) where
  -- What is emitted of a row ends the loop.
  emitted_values :
      (m n : FetchState E → E.State → Found E) (r : RowsState E) (values : List (TursoValue E.F64))
      → (a : Result (Option E.Row) EngineError × E.Rows × E.State)
      → settle_item E m (emit_values E r values a) ≡ settle_item E n (emit_values E r values a)
  emitted_values m n r values (err e, rows, s) = refl
  emitted_values m n r values (ok none, rows, s) = refl
  emitted_values m n r values (ok (some row), rows, s) = refl

  emitted :
      (m n : FetchState E → E.State → Found E) (r : RowsState E) (s : E.State)
      → (v : Result (List (TursoValue E.F64)) Error)
      → settle_item E m (emit_read E r s v) ≡ settle_item E n (emit_read E r s v)
  emitted m n r s (err e) = refl
  emitted m n r s (ok values) = emitted_values m n r values (E.next r.rows s)

  begun :
      (k : ℕ) (r : RowsState E) (a : Result (Option E.Row) EngineError × E.Rows × E.State)
      → settle_item E (λ g t. optional_row E (suc k) g t) (begin_row E r a)
        ≡ settle_item E (λ g t. optional_row E 1 g t) (begin_row E r a)
  unfolding optional_row next
  begun k r (err e, rows, s) = refl
  begun k r (ok none, rows, s) = refl
  begun k r (ok (some row), rows, s) =
      emitted (λ g t. optional_row E (suc k) g t) (λ g t. optional_row E 1 g t)
        (record r { rows = rows }) s (row_values E row 0 r.columns)

  next_by :
      (r : RowsState E) (s : E.State) (p : Option E.Row)
      → r.pending_row ≡ p
      → next E (rows_state r) s
        ≡ elim p [ some row ↦ emit E r row s | none ↦ begin_row E r (E.next r.rows s) ]
  unfolding next
  next_by r s p h =
      ap (λ q. elim q [ some row ↦ emit E r row s | none ↦ begin_row E r (E.next r.rows s) ]) h

  polled :
      (k : ℕ) (r : RowsState E) (s : E.State) (p : Option E.Row)
      → settle_item E
          (λ g t. optional_row E (suc k) g t)
          (elim p [ some row ↦ emit E r row s | none ↦ begin_row E r (E.next r.rows s) ])
        ≡ settle_item E
            (λ g t. optional_row E 1 g t)
            (elim p [ some row ↦ emit E r row s | none ↦ begin_row E r (E.next r.rows s) ])
  polled k r s (some row) =
      emitted (λ g t. optional_row E (suc k) g t) (λ g t. optional_row E 1 g t) r s
        (row_values E row 0 r.columns)
  polled k r s none = begun k r (E.next r.rows s)

  -- More polls than two change nothing: the loop of `fetch_optional` ends by then, whatever the
  -- engine answers.
  optional_row-enough :
      (k : ℕ) (f : FetchState E) (s : E.State)
      → optional_row E (suc (suc k)) f s ≡ optional_row E 2 f s
  unfolding optional_row next
  optional_row-enough k (query_result result) s = refl
  optional_row-enough k done s = refl
  optional_row-enough k (rows_state r) s = polled k r s r.pending_row

  -- What a row with readable values is found as, by the answer to the call for the next one.
  found_row :
      (r : RowsState E) (row : E.Row) (s : E.State) (values : List (TursoValue E.F64))
      → (answer : Option E.Row) (rows : E.Rows) (t : E.State)
      → row_values E row 0 r.columns ≡ ok values
      → E.next r.rows s ≡ (ok answer, rows, t)
      → (settle_item E (λ g u. optional_row E 1 g u) (emit E r row s)).0
        ≡ ok (some (with_shared_columns r.columns r.column_names values))
  found_row r row s values answer rows t e n =
      ap (λ v. (settle_item E (λ g u. optional_row E 1 g u) (emit_read E r s v)).0) e
      ∙ ap (λ a. (settle_item E (λ g u. optional_row E 1 g u) (emit_values E r values a)).0) n
      ∙ shown answer
    where
      shown :
          (o : Option E.Row)
          → (settle_item E (λ g u. optional_row E 1 g u) (emit_values E r values (ok o, rows, t))).0
            ≡ ok (some (with_shared_columns r.columns r.column_names values))
      shown none = refl
      shown (some _) = refl

  first_found :
      (r : RowsState E) (s s' : E.State) (rows : List E.Row)
      (values : List (List (TursoValue E.F64)))
      → Yields E r.rows s rows s'
      → Decodes E r.columns rows values
      → (settle_item E (λ g t. optional_row E 1 g t) (begin_row E r (E.next r.rows s))).0
        ≡ ok (first_right (items_of E r values s'))
  unfolding optional_row next
  first_found r s s' _ [] (no_more n) d =
      ap (λ a. (settle_item E (λ g t. optional_row E 1 g t) (begin_row E r a)).0) n
  first_found r s s' _ (_ ∷ _) (no_more n) d = absurd (omega (arith, d))
  first_found r s s' _ [] (one_more n y) d = absurd (omega (arith, d))
  first_found r s s' _ (v ∷ later)
        (one_more {rows' = rows'} {s1 = s1} {row = row} n (no_more {rows' = last} {s' = t} n2)) d =
      ap (λ a. (settle_item E (λ g t. optional_row E 1 g t) (begin_row E r a)).0) n
      ∙ found_row (record r { rows = rows' }) row s1 v none last t (d.0) n2
  first_found r s s' _ (v ∷ later)
        (one_more {rows' = rows'} {s1 = s1} {row = row} n
          (one_more {rows' = last} {s1 = t} {row = row2} n2 y))
        d =
      ap (λ a. (settle_item E (λ g t. optional_row E 1 g t) (begin_row E r a)).0) n
      ∙ found_row (record r { rows = rows' }) row s1 v (some row2) last t (d.0) n2

  -- The first row of a query whose cursor gives some rows and then ends, each row readable, is what
  -- `fetch_optional` finds, and nothing where there is no row: what reading the stream to its end
  -- would have given as its first row.
  pub optional_row-first :
      (k : ℕ) (r : RowsState E) (s s' : E.State) (rows : List E.Row)
      → (values : List (List (TursoValue E.F64))) → r.pending_row ≡ none
      → Yields E r.rows s rows s'
      → Decodes E r.columns rows values
      → (optional_row E (suc (suc k)) (rows_state r) s).0
        ≡ ok (first_right (items_of E r values s'))
  unfolding optional_row
  optional_row-first k r s s' rows values p y d =
      ap (λ o. o.0) (optional_row-enough k (rows_state r) s)
      ∙ ap (λ a. (settle_item E (λ g t. optional_row E 1 g t) a).0) (next_by r s none p)
      ∙ first_found r s s' rows values y d
