-- ===== src/Transaction/Refinement.antt =====
-- The specification of the transaction manager, nested transactions that roll back at once when
-- dropped, and when a connection stands for one of its states.
pub mod Loop
pub mod Steps
pub mod History
pub mod Failing
pub mod Persist
pub mod Crashed
use sqlx_turso.Base.{
  length, ℕ, suc, ◌<◌, ◌≡◌, refl, ap, ◌∙◌, false, some, List, [], ◌∷◌, ◌++◌, append_assoc, arith,
}
use sqlx_turso.Engine.{Engine, AnsiSql}
use sqlx_turso.Statement.{StatementCache}
use sqlx_turso.Connection.{TursoConnection}
use sqlx_turso.Transaction.Laws.{Transactional}

-- The specification: the database, and what each open transaction began with, innermost first.
pub record Nested (Db : Type 0) : Type 0 where
  pub current : Db
  pub marks : List Db

module _ {Db : Type 0} where
  abbrev pub begun : Nested Db → Nested Db
  begun n = record { current = n.current; marks = n.current ∷ n.marks }

  abbrev pub committed_from : Db → List Db → Nested Db
  committed_from x [] = record { current = x; marks = [] }
  committed_from x (y ∷ ys) = record { current = x; marks = ys }

  -- With no transaction open, nothing happens.
  abbrev pub committed : Nested Db → Nested Db
  committed n = committed_from n.current n.marks

  abbrev pub rolled_back_from : Db → List Db → Nested Db
  rolled_back_from x [] = record { current = x; marks = [] }
  rolled_back_from x (y ∷ ys) = record { current = y; marks = ys }

  abbrev pub rolled_back : Nested Db → Nested Db
  rolled_back n = rolled_back_from n.current n.marks

  -- What is left once the dropped transactions, innermost first, have been rolled back.
  abbrev pub seen : Db → List Db → Db
  seen x [] = x
  seen x (y ∷ ys) = seen y ys

  -- The depths owed for the dropped transactions above the open ones.
  abbrev pub pendings : List Db → List Db → List ℕ
  pendings [] m = []
  pendings (y ∷ ys) m = suc (length (ys ++ m)) ∷ pendings ys m

  pub pendings-drop :
      (ys : List Db) (x : Db) (m : List Db)
      → pendings ys (x ∷ m) ++ suc (length m) ∷ [] ≡ pendings (ys ++ x ∷ []) m
  pendings-drop [] x m = refl
  pendings-drop (y ∷ ys) x m =
      rw (append_assoc ys (x ∷ []) m) (ap (◌∷◌ (suc (length (ys ++ x ∷ m)))) (pendings-drop ys x m))

  pub seen-drop : (z : Db) (ys : List Db) (x : Db) → seen z (ys ++ x ∷ []) ≡ x
  seen-drop z [] x = refl
  seen-drop z (y ∷ ys) x = seen-drop y ys x

module _ (E : Engine) (C : StatementCache E.Statement) (Q : AnsiSql) (Db : Type 0)
    (T : Transactional E Q Db) where
  open T use {db, saved}

  -- Each mark of the list is held by the engine, at the level that counts the marks below it.
  abbrev pub Holds : E.State → List Db → Type 0
  Holds s [] = Unit
  Holds s (x ∷ xs) = (saved s (length xs) ≡ some x) × Holds s xs

  pub Holds-same :
      (s t : E.State) (xs : List Db)
      → ((j : ℕ) → j < length xs → saved t j ≡ saved s j)
      → Holds s xs
      → Holds t xs
  Holds-same s t [] same h = tt
  Holds-same s t (x ∷ xs) same h =
      (same (length xs) (omega arith) ∙ h.0, Holds-same s t xs (λ j p. same j (omega arith)) h.1)

  -- The connection stands for a state of the specification: some dropped transactions are still
  -- open in the engine and their rollbacks are owed.
  pub record Refines (c : TursoConnection E C) (n : Nested Db) : Type 0 where
    pub dropped : List Db
    pub holds : Holds c.raw (dropped ++ n.marks)
    pub depth_is : c.transaction_state.depth ≡ length n.marks
    pub owed : c.transaction_state.pending_rollback_depths ≡ pendings dropped n.marks
    pub current_is : n.current ≡ seen (db c.raw) dropped
    pub healthy : c.transaction_state.rollback_failed ≡ false

  -- The same with nothing owed.
  pub record Settled (c : TursoConnection E C) (n : Nested Db) : Type 0 where
    pub holds : Holds c.raw n.marks
    pub depth_is : c.transaction_state.depth ≡ length n.marks
    pub owed : c.transaction_state.pending_rollback_depths ≡ []
    pub current_is : n.current ≡ db c.raw
    pub healthy : c.transaction_state.rollback_failed ≡ false

  pub Settled-Refines : {c : TursoConnection E C} {n : Nested Db} → Settled c n → Refines c n
  Settled-Refines h = record {
    dropped = [];
    holds = h.holds;
    depth_is = h.depth_is;
    owed = h.owed;
    current_is = h.current_is;
    healthy = h.healthy;
  }
