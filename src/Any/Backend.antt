-- ===== src/Any/Backend.antt =====
-- crates/sqlx-turso-core/src/any.rs: the calls of a connection that the Any driver makes, with its
-- conversions. What `sqlx_core::any` does is a parameter. The calls that are passed on as they are, as
-- those of the transaction manager, are those of the connection.
use sqlx_turso.Base.{
  Result, ok, err, and_then, ℤ, ℕ, zero, suc, ◌≡◌, refl, ap, Bool, Option, none, some, List, [],
  ◌∷◌,
}
use sqlx_turso.Text.{Text}
use sqlx_turso.Error.{Message, Error}
use sqlx_turso.Engine.{Engine, AnsiSql}
use sqlx_turso.Column.{TursoColumn, NameMap}
use sqlx_turso.Statement.{StatementCache, TursoStatement}
use sqlx_turso.Row.{TursoRow, TursoQueryResult}
use sqlx_turso.Arguments.{TursoArguments}
use sqlx_turso.Action.{Action, ◌>>=◌}
use sqlx_turso.Any.{AnyTypeInfoKind, any_type_info_kind}
use sqlx_turso.Executor.Fetch.{
  Item, left, right, FetchState, ItemStream, iter, try_unfold, Polled, next, State, fetch_many_sql,
}
use sqlx_turso.Executor.Fetch.Optional.{
  Describe, first_right, Found, settle_item, optional_row, fetch_taken, fetch_many, optional_of,
  fetch_optional, prepare_with, describe,
}

-- `AnyColumn`, by its fields, and `AnyQueryResult`.
pub record AnyColumn : Type 0 where
  pub ordinal : ℕ
  pub name : Text
  pub kind : AnyTypeInfoKind

pub record AnyQueryResult : Type 0 where
  pub rows_affected : ℕ
  pub last_insert_id : Option ℤ

unfoldable any_column : TursoColumn → AnyColumn
unfolding any_type_info_kind
any_column c = record { ordinal = c.ordinal; name = c.name; kind = any_type_info_kind c.type_info }

unfoldable any_query_result : TursoQueryResult → AnyQueryResult
any_query_result r = record { rows_affected = r.rows_affected; last_insert_id = none }

-- `AnyRow::map_from`, `AnyArguments::convert_into`, `AnyStatement::try_from_statement` and
-- `Describe::try_into_any`.
pub record AnyCrate (E : Engine) : Type 1 where
  pub AnyRow : Type 0
  pub AnyArguments : Type 0
  pub AnyStatement : Type 0
  pub AnyDescribe : Type 0
  pub map_from : TursoRow E.F64 → NameMap → Result AnyRow Error
  pub convert_into : AnyArguments → Result (TursoArguments E.F64) Message
  pub try_from_statement : TursoStatement E.Statement → NameMap → Result AnyStatement Error
  pub try_into_any : Describe → Result AnyDescribe Error

-- `transpose`
abbrev transposed : {A : Type 0} → Option (Result A Message) → Result (Option A) Message
transposed none = ok none
transposed (some (ok a)) = ok (some a)
transposed (some (err e)) = err e

abbrev option_map : {A B : Type 0} → (A → B) → Option A → Option B
option_map f none = none
option_map f (some a) = some (f a)

abbrev as_some : {A : Type 0} → Result A Error → Result (Option A) Error
as_some (ok a) = ok (some a)
as_some (err e) = err e

-- What follows a call on a state, where it may fail without changing it.
abbrev pub and_try :
    {A B S : Type 0} → (A → Result B Error) → Result A Error × S → Result B Error × S
and_try f = and_then (λ a s. (f a, s))

module _ (E : Engine) (A : AnyCrate E) where
  -- `Either<AnyQueryResult, AnyRow>`
  pub data AnyItem : Type 0 where
    any_left : AnyQueryResult → AnyItem
    any_right : A.AnyRow → AnyItem

  -- `AnyRow::try_from(row)`
  abbrev any_row : TursoRow E.F64 → Result A.AnyRow Error
  any_row row = A.map_from row row.column_names

  abbrev right_item : Result A.AnyRow Error → Result AnyItem Error
  right_item (ok row) = ok (any_right row)
  right_item (err e) = err e

  -- What `and_then` makes of an item of the stream.
  abbrev any_item : Item E.F64 → Result AnyItem Error
  any_item (left result) = ok (any_left (any_query_result result))
  any_item (right row) = right_item (any_row row)

  abbrev any_polled_item :
      Result AnyItem Error → FetchState E → Result (Option (AnyItem × FetchState E)) Error
  any_polled_item (ok item) f = ok (some (item, f))
  any_polled_item (err e) f = err e

  -- A poll of the stream of `fetch_many`.
  abbrev any_polled : Polled E → Result (Option (AnyItem × FetchState E)) Error × E.State
  any_polled (err e, s) = (err e, s)
  any_polled (ok none, s) = (ok none, s)
  any_polled (ok (some (item, f)), s) = (any_polled_item (any_item item) f, s)

  unfoldable any_next :
      FetchState E → E.State → Result (Option (AnyItem × FetchState E)) Error × E.State
  unfolding next
  any_next f s = any_polled (next E f s)

  abbrev AnyFound : Type 0
  AnyFound = Result (Option A.AnyRow) Error × E.State

  -- A round of the loop of `fetch_optional`.
  abbrev settle_any : (FetchState E → E.State → AnyFound) → Polled E → AnyFound
  settle_any more (err e, s) = (err e, s)
  settle_any more (ok none, s) = (ok none, s)
  settle_any more (ok (some (left _, f)), s) = more f s
  settle_any more (ok (some (right row, f)), s) = (as_some (any_row row), s)

  unfoldable any_optional_row : ℕ → FetchState E → E.State → AnyFound
  unfolding next
  any_optional_row zero f s = (ok none, s)
  any_optional_row (suc fuel) f s = settle_any (λ g t. any_optional_row fuel g t) (next E f s)

  abbrev any_first : List (Item E.F64) → Result (Option A.AnyRow) Error
  any_first [] = ok none
  any_first (left _ ∷ items) = any_first items
  any_first (right row ∷ items) = as_some (any_row row)

  -- What was found, converted.
  abbrev pub found_any : Option (TursoRow E.F64) → Result (Option A.AnyRow) Error
  found_any none = ok none
  found_any (some row) = as_some (any_row row)

  any_settled :
      (m : FetchState E → E.State → AnyFound) (n : FetchState E → E.State → Found E)
      → ((g : FetchState E) (t : E.State) → m g t ≡ and_try found_any (n g t))
      → (p : Polled E) → settle_any m p ≡ and_try found_any (settle_item E n p)
  any_settled m n h (err e, s) = refl
  any_settled m n h (ok none, s) = refl
  any_settled m n h (ok (some (left _, f)), s) = h f s
  any_settled m n h (ok (some (right row, f)), s) = refl

  -- The loop finds what the executor's finds, converted.
  any_optional_row_lem :
      (fuel : ℕ) (f : FetchState E) (s : E.State)
      → any_optional_row fuel f s ≡ and_try found_any (optional_row E fuel f s)
  unfolding any_optional_row optional_row
  any_optional_row_lem zero f s = refl
  any_optional_row_lem (suc fuel) f s =
      any_settled (λ g t. any_optional_row fuel g t) (λ g t. optional_row E fuel g t)
        (λ g t. any_optional_row_lem fuel g t) (next E f s)

  any_first_lem : (items : List (Item E.F64)) → any_first items ≡ found_any (first_right items)
  any_first_lem [] = refl
  any_first_lem (left _ ∷ items) = any_first_lem items
  any_first_lem (right row ∷ items) = refl

module _ (E : Engine) (A : AnyCrate E) (C : StatementCache E.Statement) (Q : AnsiSql) where
  abbrev converted : Option A.AnyArguments → Result (Option (TursoArguments E.F64)) Message
  converted arguments = transposed (option_map A.convert_into arguments)

  -- `fetch_many`; the items of its stream are those of `any_next`.
  unfoldable any_fetch_many :
      Text → Bool → Option A.AnyArguments → Action (State E C) (ItemStream E)
  unfolding fetch_many_sql
  any_fetch_many sql persistent arguments = fetch_taken E C Q sql persistent (converted arguments)

  unfoldable any_optional_of : ItemStream E → Action (State E C) (Option A.AnyRow)
  unfolding any_optional_row
  any_optional_of (iter items) c = (any_first E A items, c)
  any_optional_of (try_unfold f) c =
      let found = any_optional_row E A 2 f c.raw in (found.0, record c { raw = found.1 })

  unfoldable pub any_fetch_optional :
      Text → Bool → Option A.AnyArguments → Action (State E C) (Option A.AnyRow)
  unfolding fetch_many_sql any_optional_of
  any_fetch_optional sql persistent arguments = do
    stream ← fetch_taken E C Q sql persistent (converted arguments)
    any_optional_of stream

  unfoldable any_prepare_with : Text → Action (State E C) A.AnyStatement
  unfolding prepare_with
  any_prepare_with sql c =
      and_try (λ statement. A.try_from_statement statement statement.column_names)
        (prepare_with E C Q sql c)

  unfoldable any_describe : Text → Action (State E C) A.AnyDescribe
  unfolding describe
  any_describe sql c = and_try A.try_into_any (describe E C Q sql c)

  streamed :
      (out : Result (ItemStream E) Error × State E C)
      → and_then any_optional_of out ≡ and_try (found_any E A) (and_then (optional_of E C Q) out)
  unfolding any_optional_of optional_of
  streamed (err e, c) = refl
  streamed (ok (iter items), c) = ap (λ r. (r, c)) (any_first_lem E A items)
  streamed (ok (try_unfold f), c) =
      stored (optional_row E 2 f c.raw) (any_optional_row_lem E A 2 f c.raw)
    where
      stored :
          (p : Found E) {q : AnyFound E A}
          → q ≡ and_try (found_any E A) p
          → ◌≡◌ {A = Result (Option A.AnyRow) Error × State E C}
              (q.0, record c { raw = q.1 })
              (and_try (found_any E A) (p.0, record c { raw = p.1 }))
      stored (ok found, s) h = ap (λ q. (q.0, record c { raw = q.1 })) h
      stored (err e, s) h = ap (λ q. (q.0, record c { raw = q.1 })) h

  -- The Any driver's `fetch_optional` gives what the executor's gives, with the arguments converted
  -- before and the row behind: also in its errors and in what it does to the connection.
  pub any_fetch_optional-fetch_optional :
      (sql : Text) (persistent : Bool) (arguments : Option A.AnyArguments) (c : State E C)
      → any_fetch_optional sql persistent arguments c
        ≡ and_try (found_any E A) (fetch_optional E C Q sql persistent (converted arguments) c)
  unfolding any_fetch_optional fetch_optional fetch_many
  any_fetch_optional-fetch_optional sql persistent arguments c =
      streamed (fetch_taken E C Q sql persistent (converted arguments) c)
