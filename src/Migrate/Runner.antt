-- ===== src/Migrate/Runner.antt =====
-- crates/sqlx-turso-core/src/migrate.rs and executor.rs: the queries that migrations run, through
-- `fetch_many`. What sqlx-core does with the stream is a parameter.
pub mod Quiet
pub mod Leaves
pub mod Kept
use sqlx_turso.Base.{Result, ok, ℤ, ℕ, refl, Bool, Option, none, some, List, [], ◌∷◌}
use sqlx_turso.Text.{Text}
use sqlx_turso.Error.{Error}
use sqlx_turso.Engine.{Engine, AnsiSql}
use sqlx_turso.Action.{Action, ◌>>=◌}
use sqlx_turso.Statement.{StatementCache}
use sqlx_turso.Arguments.{TursoArguments, Encoder, add}
use sqlx_turso.Value.Integers.{i64, EncodedType, encode_integer, encode_bool}
use sqlx_turso.Value.Codec.{encode_str, encode_bytes}
use sqlx_turso.Executor.Fetch.{State, ItemStream}
use sqlx_turso.Executor.Fetch.Optional.{fetch_many}

-- What is bound to a query.
pub data Bound : Type 0 where
  number : ℤ → Bound
  string : Text → Bound
  bytes : List ℕ → Bound
  flag : Bool → Bound

-- `Executor::execute` of sqlx-core takes the stream to its end, and says whether the statement is
-- kept in the cache.
pub record Collector (E : Engine) : Type 0 where
  pub persistent : Bool
  pub collect : ItemStream E → E.State → Result (Unit {0}) Error × E.State

abbrev signed_type : EncodedType
signed_type = record { type = i64; encodes = refl }

module _ {F : Type 0} where
  abbrev bound_encoder : Bound → Encoder F
  bound_encoder (number n) = encode_integer signed_type n
  bound_encoder (string s) = encode_str s
  bound_encoder (bytes b) = encode_bytes b
  bound_encoder (flag b) = encode_bool b

  -- The calls of `bind`; these encoders do not fail.
  abbrev bind_all : List Bound → TursoArguments F → TursoArguments F
  bind_all [] args = args
  bind_all (b ∷ bs) args = bind_all bs (add (bound_encoder b) args).1

  -- A plain text has no arguments at all.
  abbrev pub bound_arguments : List Bound → Option (TursoArguments F)
  bound_arguments [] = none
  bound_arguments (b ∷ bs) = some (bind_all (b ∷ bs) (record { values = [] }))

module _ (E : Engine) (C : StatementCache E.Statement) (Q : AnsiSql) (K : Collector E) where
  abbrev pub collected : ItemStream E → Action (State E C) (Unit {0})
  collected stream c = let out = K.collect stream c.raw in (out.0, record c { raw = out.1 })

  -- `conn.execute(sql)` and `query(sql).bind(..).execute(conn)`
  unfoldable pub run_query : Text → List Bound → Action (State E C) (Unit {0})
  unfolding fetch_many
  run_query sql bs = fetch_many E C Q sql K.persistent (ok (bound_arguments bs)) >>= collected
