-- ===== src/Tests/Caches.antt =====
-- A statement cache that is a list, over the toy engine.
use sqlx_turso.Base.{
  if◌then◌else◌, Bool-cases, length, ◌≡◌, ◌⊎◌, inl, inr, true, Option, none, some, List, [], ◌∷◌,
  arith,
}
use sqlx_turso.Text.{Text, codes, text_eq}
use sqlx_turso.Text.Laws.{text_eq_iff}
use sqlx_turso.Statement.{StatementCache, TursoStatement}
use sqlx_turso.Connection.{new}
use sqlx_turso.Executor.Fetch.{prepare_sql, fetch_many_sql}
use sqlx_turso.Executor.Fetch.Cached.{CacheLaws, IsPrepared, Outcome}
use sqlx_turso.Executor.Fetch.Owned.{RunsOwn}
use sqlx_turso.Executor.Fetch.Calls.{Call, begins, prepares, fetches, behind_all, new-RunsOwn}
use sqlx_turso.Tests.Toy.{toy, toy_sql, toy_start}

abbrev Listed : Type 0
Listed = List (Text × TursoStatement Text)

abbrev find_listed : Text → Listed → Option (TursoStatement Text)
find_listed q [] = none
find_listed q ((key, st) ∷ rest) = if text_eq key q then some st else find_listed q rest

abbrev pub listed : StatementCache Text
listed = record {
  Cache = Listed;
  with_capacity = λ _. [];
  get_mut = λ q c. (find_listed q c, c);
  insert = λ q st c. (q, st) ∷ c;
  is_enabled = λ _. true;
  len = length;
  clear = λ _. [];
}

abbrev IsListed : Listed → Text → TursoStatement Text → Type 0
IsListed [] q st = ⊥
IsListed ((key, s) ∷ rest) q st = ((key ≡ q) × (s ≡ st)) ⊎ IsListed rest q st

find-IsListed :
    (q : Text) (c : Listed) (st : TursoStatement Text) → find_listed q c ≡ some st → IsListed c q st
find-IsListed q [] st h = cc
find-IsListed q ((key, s) ∷ rest) st h = elim (Bool-cases (text_eq key q)) [
  | inl e ↦ inl ((text_eq_iff key q).0 e, ground (arith, e, h))
  | inr e ↦ inr (find-IsListed q rest st (ground (arith, e, h)))
]

pub listed_laws : CacheLaws listed
listed_laws = record {
  Holds = IsListed;
  empty_law = λ n q st h. h;
  hit_law = find-IsListed;
  get_law = λ key q c st h. h;
  insert_law = λ key q c added st h. h;
  clear_law = λ q c st h. h;
}

-- A text is prepared, and in a transaction queried from the cache.
abbrev calls : List (Call toy)
calls = prepares (codes "SELECT 1") ∷ begins none ∷ fetches (codes "SELECT 1") true none ∷ []

new-RunsOwn_example :
    Outcome toy listed listed_laws (IsPrepared toy (codes "SELECT 1")) (
      prepare_sql toy listed
        (codes "SELECT 1")
        (behind_all toy listed toy_sql calls (new toy listed 10 toy_start)))
    × Outcome toy listed listed_laws (RunsOwn toy listed listed_laws (codes "SELECT 1")) (
        fetch_many_sql toy listed toy_sql
          (codes "SELECT 1")
          true
          none
          (behind_all toy listed toy_sql calls (new toy listed 10 toy_start)))
new-RunsOwn_example =
    new-RunsOwn toy listed listed_laws toy_sql 10 toy_start calls (codes "SELECT 1") true none
