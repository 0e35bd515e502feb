-- ===== src/Tests/Toy.antt =====
-- A toy engine: its database is one number, and its transaction statements are two code points, a
-- tag and a level or depth. It shows that what is asked of the engine can be met.
use sqlx_turso.Base.{
  ◌==◌, if◌then◌else◌, Result, ok, err, pos, ℕ, suc, ◌-◌, ◌<◌, ◌≡◌, refl, ap, false, Option, none,
  some, List, [], ◌∷◌, arith,
}
use sqlx_turso.Text.{Text, codes}
use sqlx_turso.Error.{EngineError, error}
use sqlx_turso.Engine.{EngineValue, Engine, AnsiSql}
use sqlx_turso.Statement.{StatementCache}
use sqlx_turso.Connection.{rollback_error_is_inactive_transaction}
use sqlx_turso.Transaction.Laws.{Transactional}
use sqlx_turso.Transaction.Refinement.Failing.{FailsCleanly}

pub record ToyState : Type 0 where
  pub value : ℕ
  pub marks : ℕ → Option ℕ

abbrev set_mark : ℕ → ℕ → (ℕ → Option ℕ) → ℕ → Option ℕ
set_mark l x marks j = if j == l then some x else marks j

abbrev restore : Option ℕ → ToyState → Result (Unit {0}) EngineError × ToyState
restore none s = (err (error (codes "cannot rollback - no transaction is active")), s)
restore (some x) s = (ok tt, record s { value = x })

abbrev toy_statement : ℕ → ℕ → ToyState → Result (Unit {0}) EngineError × ToyState
toy_statement tag level s =
    if tag == 1
    then (ok tt, record s { marks = set_mark level s.value s.marks })
    else if tag == 2
    then (ok tt, s)
    else restore (s.marks (level - 1)) s

abbrev toy_execute : Text → ToyState → Result (Unit {0}) EngineError × ToyState
toy_execute (tag ∷ level ∷ []) s = toy_statement tag level s
toy_execute _ s = (err (error (codes "syntax error")), s)

abbrev shown : EngineError → Text
shown (error m) = m
shown _ = []

-- A result set is the list of its rows, a row the list of its values; a statement is its text,
-- and every statement selects the rows 1, 2 and 3.
abbrev toy_next : List ℕ → ToyState → Result (Option ℕ) EngineError × List ℕ × ToyState
toy_next [] s = (ok none, [], s)
toy_next (r ∷ rs) s = (ok (some r), rs, s)

abbrev pub toy : Engine
toy = record {
  State = ToyState;
  Statement = Text;
  Rows = List ℕ;
  Row = ℕ;
  F64 = ℕ;
  display = shown;
  execute = toy_execute;
  execute_batch = toy_execute;
  prepare = λ sql s. (ok sql, s);
  columns = λ _. record { name = codes "id"; decl_type = some (codes "INTEGER") } ∷ [];
  query = λ _ _ s. (ok (1 ∷ 2 ∷ 3 ∷ []), s);
  next = toy_next;
  get_value = λ r _. ok (EngineValue.integer (pos r));
  n_change = λ _ s. s.value;
}

abbrev pub toy_sql : AnsiSql
toy_sql = record {
  begin_sql = λ l. 1 ∷ l ∷ [];
  commit_sql = λ d. 2 ∷ d ∷ [];
  rollback_sql = λ d. 3 ∷ d ∷ [];
}

-- A cache that holds nothing.
abbrev pub no_cache : StatementCache Text
no_cache = record {
  Cache = Unit {0};
  with_capacity = λ _. tt;
  get_mut = λ _ c. (none, c);
  insert = λ _ _ c. c;
  is_enabled = λ _. false;
  len = λ _. 0;
  clear = λ c. c;
}

abbrev pub toy_start : ToyState
toy_start = record { value = 5; marks = λ _. none }

pub begin-toy :
    (l : ℕ) (sql : Text) (s : ToyState)
    → sql ≡ 1 ∷ l ∷ []
    → (toy_execute sql s).0 ≡ ok tt
    → ((toy_execute sql s).1.value ≡ s.value)
      × ((toy_execute sql s).1.marks l ≡ some s.value)
      × ((j : ℕ) → j < l → (toy_execute sql s).1.marks j ≡ s.marks j)
begin-toy l sql s e h = rw e (refl, ground arith, λ j p. ground arith)

pub rollback-toy :
    (l : ℕ) (s : ToyState) (x : ℕ)
    → s.marks l ≡ some x
    → (toy_execute (3 ∷ suc l ∷ []) s).0 ≡ ok tt
    → ((toy_execute (3 ∷ suc l ∷ []) s).1.value ≡ x)
      × ((j : ℕ) → j < l → (toy_execute (3 ∷ suc l ∷ []) s).1.marks j ≡ s.marks j)
rollback-toy l s x m h = let e : suc l - 1 ≡ l = omega arith in rw (e, m) (refl, λ j p. refl)

pub inactive-toy :
    (s : ToyState) {x : ℕ} {e : EngineError}
    → s.marks 0 ≡ some x
    → (toy_execute (3 ∷ 1 ∷ []) s).0 ≡ err e
    → rollback_error_is_inactive_transaction toy e ≡ false
inactive-toy s m h = cc (rw m at h)

abbrev pub toy_laws : Transactional toy toy_sql ℕ
toy_laws = record {
  db = λ s. s.value;
  saved = λ s. s.marks;
  Opens = λ l sql. sql ≡ 1 ∷ l ∷ [];
  opens_ansi = λ l. refl;
  begin_law = begin-toy;
  commit_law = λ l s h. (refl, λ j p. refl);
  rollback_law = rollback-toy;
  inactive_law = inactive-toy;
}

statement_failed :
    (tag level : ℕ) (s : ToyState) (e : EngineError)
    → (toy_statement tag level s).0 ≡ err e
    → (toy_statement tag level s).1 ≡ s
statement_failed tag level s e h = ground arith

toy_failed :
    (sql : Text) (s : ToyState) (e : EngineError)
    → (toy_execute sql s).0 ≡ err e
    → (toy_execute sql s).1 ≡ s
toy_failed [] s e h = refl
toy_failed (tag ∷ []) s e h = refl
toy_failed (tag ∷ level ∷ []) s e h = statement_failed tag level s e h
toy_failed (tag ∷ level ∷ x ∷ xs) s e h = refl

pub toy_inert : FailsCleanly toy_laws
toy_inert = record {
  failed_law = λ sql s e h.
      (ap (λ t. t.value) (toy_failed sql s e h), λ j. ap (λ t. t.marks j) (toy_failed sql s e h));
}
