-- ===== src/Executor/Fetch/Drain.antt =====
-- What the stream of a query gives when it is read to its end.
use sqlx_turso.Base.{
  length, Result, ok, err, ℕ, zero, suc, ◌+◌, ◌≡◌, refl, ap, subst, ◌∙◌, none, some, List, [], ◌∷◌,
  arith,
}
use sqlx_turso.Error.{Error}
use sqlx_turso.Engine.{Engine}
use sqlx_turso.Column.{TursoColumn}
use sqlx_turso.Value.{TursoValue}
use sqlx_turso.Row.{with_shared_columns}
use sqlx_turso.Executor.Fetch.{
  Item, left, right, RowsState, FetchState, rows_state, query_result, row_values, changes, Polled,
  emit_values, emit_read, emit, begin_row, next,
}

module _ (E : Engine) where
  abbrev Collected : Type 0
  Collected = Result (List (Item E.F64)) Error × E.State

  abbrev onto : Item E.F64 → Collected → Collected
  onto item (ok items, s) = (ok (item ∷ items), s)
  onto item (err e, s) = (err e, s)

  abbrev pub after : (FetchState E → E.State → Collected) → Polled E → Collected
  after more (err e, s) = (err e, s)
  after more (ok none, s) = (ok [], s)
  after more (ok (some (item, f)), s) = onto item (more f s)

  -- `try_collect`, for at most the given number of polls: the items, or the first error.
  unfoldable pub drain : ℕ → FetchState E → E.State → Collected
  unfolding next
  drain zero f s = (ok [], s)
  drain (suc n) f s = after (λ g t. drain n g t) (next E f s)

  -- The engine's cursor gives these rows, one by one, and then no more; the state at the end.
  pub data Yields : E.Rows → E.State → List E.Row → E.State → Type 0 where
    no_more :
        {rows rows' : E.Rows} {s s' : E.State}
        → E.next rows s ≡ (ok none, rows', s')
        → Yields rows s [] s'
    one_more :
        {rows rows' : E.Rows} {s s1 s' : E.State} {row : E.Row} {more : List E.Row}
        → E.next rows s ≡ (ok (some row), rows', s1)
        → Yields rows' s1 more s'
        → Yields rows s (row ∷ more) s'

  -- The values of each row.
  abbrev pub Decodes : List TursoColumn → List E.Row → List (List (TursoValue E.F64)) → Type 0
  Decodes columns [] [] = Unit
  Decodes columns (row ∷ rows) (values ∷ more) =
      (row_values E row 0 columns ≡ ok values) × Decodes columns rows more
  Decodes columns _ _ = zero ≡ 1

  -- The rows in the order of the cursor, and one result with the changes counted at the end.
  abbrev pub items_of : RowsState E → List (List (TursoValue E.F64)) → E.State → List (Item E.F64)
  items_of r [] s = left (changes E r.statement s) ∷ []
  items_of r (values ∷ more) s =
      right (with_shared_columns r.columns r.column_names values) ∷ items_of r more s

  drain_result :
      (f : ℕ) (r : RowsState E) (s : E.State)
      → drain (suc f) (query_result (changes E r.statement s)) s
        ≡ (ok (left (changes E r.statement s) ∷ []), s)
  unfolding drain
  drain_result zero r s = refl
  drain_result (suc f) r s = refl

  abbrev polls : List E.Row → ℕ → ℕ
  polls [] f = suc f
  polls (_ ∷ rows) f = suc (polls rows f)

  length-polls : (rows : List E.Row) (f : ℕ) → polls rows f ≡ length rows + suc f
  length-polls [] f = omega arith
  length-polls (_ ∷ rows) f = omega (arith, length-polls rows f)

  polls-suc : (rows : List E.Row) (f : ℕ) → suc (polls rows f) ≡ polls rows (suc f)
  polls-suc [] f = refl
  polls-suc (_ ∷ rows) f = ap suc (polls-suc rows f)

  -- These polls are enough for the rows that are left, the result and the end.
  drain-emit :
      (f : ℕ) (r : RowsState E) (row : E.Row) {s s' : E.State} {more : List E.Row}
      → (values : List (TursoValue E.F64)) (later : List (List (TursoValue E.F64)))
      → row_values E row 0 r.columns ≡ ok values
      → Decodes r.columns more later
      → Yields r.rows s more s'
      → after (λ g t. drain (polls more f) g t) (emit E r row s)
        ≡ (ok (items_of r (values ∷ later) s'), s')
  unfolding drain
  drain-emit f r row {s} values [] e d (no_more {s' = s'} n) =
      ap (λ v. after (λ g t. drain (suc f) g t) (emit_read E r s v)) e
      ∙ ap (λ a. after (λ g t. drain (suc f) g t) (emit_values E r values a)) n
      ∙ ap (onto (right (with_shared_columns r.columns r.column_names values)))
          (drain_result f r s')
  drain-emit f r row values (_ ∷ _) e d (no_more n) = absurd (omega (arith, d))
  drain-emit f r row {s} values (values2 ∷ later) e d
        (one_more {rows' = rows'} {s1 = s1} {row = row2} {more = more} n y) =
      ap (λ v. after (λ g t. drain (suc (polls more f)) g t) (emit_read E r s v)) e
      ∙ ap (λ a. after (λ g t. drain (suc (polls more f)) g t) (emit_values E r values a)) n
      ∙ ap (onto (right (with_shared_columns r.columns r.column_names values))) (
          drain-emit f (record r { rows = rows'; pending_row = some row2 }) row2 values2 later d.0
            d.1 y)
  drain-emit f r row values [] e d (one_more n y) = absurd (omega (arith, d))

  next-begin_row :
      (r : RowsState E) (s : E.State)
      → r.pending_row ≡ none
      → next E (rows_state r) s ≡ begin_row E r (E.next r.rows s)
  unfolding next
  next-begin_row r s p =
      ap (λ q. elim q [ some row ↦ emit E r row s | none ↦ begin_row E r (E.next r.rows s) ]) p

  drain-begin_row :
      (f : ℕ) (r : RowsState E) {s s' : E.State} {rows : List E.Row}
      → (values : List (List (TursoValue E.F64))) → Yields r.rows s rows s'
      → Decodes r.columns rows values
      → after (λ g t. drain (polls rows f) g t) (begin_row E r (E.next r.rows s))
        ≡ (ok (items_of r values s'), s')
  unfolding drain
  drain-begin_row f r [] (no_more n) d =
      ap (λ a. after (λ g t. drain (suc f) g t) (begin_row E r a)) n
  drain-begin_row f r (_ ∷ _) (no_more n) d = absurd (omega (arith, d))
  drain-begin_row f r [] (one_more n y) d = absurd (omega (arith, d))
  drain-begin_row f r (values ∷ later)
        (one_more {rows' = rows'} {s1 = s1} {row = row} {more = more} n y) d =
      ap (λ a. after (λ g t. drain (suc (polls more f)) g t) (begin_row E r a)) n
      ∙ ap (λ k. after (λ g t. drain k g t) (emit E (record r { rows = rows' }) row s1))
          (polls-suc more f)
      ∙ drain-emit (suc f) (record r { rows = rows' }) row values later d.0 d.1 y

  -- A query whose cursor gives some rows and then ends, each row readable: reading its stream to
  -- the end gives these rows in their order and then exactly one result, with the number of
  -- changes at the end. Two polls more than there are rows are enough.
  pub drain-items_of :
      (f : ℕ) (r : RowsState E) (s s' : E.State) (rows : List E.Row)
      → (values : List (List (TursoValue E.F64))) → r.pending_row ≡ none
      → Yields r.rows s rows s'
      → Decodes r.columns rows values
      → drain (length rows + suc (suc f)) (rows_state r) s ≡ (ok (items_of r values s'), s')
  unfolding drain
  drain-items_of f r s s' rows values p y d =
      subst (λ n. drain n (rows_state r) s ≡ (ok (items_of r values s'), s')) enough
        (ap (after (λ g t. drain (polls rows f) g t)) (next-begin_row r s p)
          ∙ drain-begin_row f r values y d)
    where
      enough : suc (polls rows f) ≡ length rows + suc (suc f)
      enough = omega (arith, length-polls rows f)
