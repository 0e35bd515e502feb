-- ===== src/Executor/Fetch/Refusal.antt =====
-- Queries with arguments that are refused before they reach the engine.
use sqlx_turso.Base.{
  if◌then◌else◌, ok, err, and_then, ◌≡◌, ap, ◌∙◌, Bool, Option, none, some, List, arith,
}
use sqlx_turso.Text.{Text, codes}
use sqlx_turso.Error.{Error, unsupported_sqlx}
use sqlx_turso.Engine.{Engine, AnsiSql}
use sqlx_turso.Statement.{StatementCache}
use sqlx_turso.Arguments.{TursoArguments}
use sqlx_turso.Connection.{TursoConnection, clear_pending_rollback}
use sqlx_turso.Executor.Inspect.{SqlInspection, inspect_sql, scan_start}
use sqlx_turso.Executor.Inspect.Lexical.{Token, Lexes, judge}
use sqlx_turso.Executor.Inspect.Judged.{inspect_sql-judge}
use sqlx_turso.Executor.Fetch.{fetch_inspected, fetch_many_sql, placeholder_surface}

-- What a query with arguments is refused as, by what is known of its text.
abbrev refusal : SqlInspection → Option Error
refusal i =
    if i.may_contain_multiple_statements
    then some (unsupported_sqlx (codes "Turso SQLx batch query arguments"))
    else elim (i.unsupported_named_placeholder) [
      | none ↦ none
      | some p ↦ some (unsupported_sqlx (placeholder_surface p))
    ]

module _ (E : Engine) (C : StatementCache E.Statement) (Q : AnsiSql) where
  fetch_inspected-refused :
      (i : SqlInspection) (sql : Text) (persistent : Bool) (args : TursoArguments E.F64)
      → (c : TursoConnection E C) (e : Error) → refusal i ≡ some e
      → fetch_inspected E C i sql persistent (some args) c ≡ (err e, c)
  unfolding fetch_inspected
  fetch_inspected-refused i sql persistent args c e h = ground arith

  -- A query with arguments whose text consists of tokens that the description judges to be several
  -- statements, or to hold a placeholder that is refused, fails as such, and behind a
  -- `clear_pending_rollback` that succeeds nothing more is done with the connection.
  pub fetch_many_sql-refused :
      {sql : Text} {ts : List Token} (lexed : Lexes sql ts) (persistent : Bool)
      → (args : TursoArguments E.F64) (c d : TursoConnection E C) (e : Error)
      → refusal (judge scan_start ts) ≡ some e
      → clear_pending_rollback E C Q c ≡ (ok tt, d)
      → fetch_many_sql E C Q sql persistent (some args) c ≡ (err e, d)
  unfolding fetch_many_sql
  fetch_many_sql-refused {sql} {ts} lexed persistent args c d e h cleared =
      ap (and_then (λ _. fetch_inspected E C (inspect_sql sql) sql persistent (some args))) cleared
      ∙ ap (λ i. fetch_inspected E C i sql persistent (some args) d) (inspect_sql-judge lexed)
      ∙ fetch_inspected-refused (judge scan_start ts) sql persistent args d e h
