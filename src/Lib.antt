-- ===== src/Lib.antt =====
-- A model of sqlx-turso, a SQLx driver for the Turso database, with its theorems.
--
-- The parts and where they stand:
--
-- * A connection (crates/sqlx-turso-core/src/connection.rs, Connection) keeps the engine's connection,
--   a cache of prepared statements, and the transaction state: the depth, the rollbacks that dropped
--   transactions still owe, and whether one of them has failed. `clear_pending_rollback` pays what is
--   owed; the transaction calls and every query start with it, preparing a statement does not.
-- * The transaction manager (transaction.rs, Transaction) has `begin`, `commit`, `rollback` and
--   `start_rollback`. Transaction/Laws states what the engine's transactions do, as hypotheses;
--   Transaction/Invariant has the invariant of the queue, Transaction/Refinement the specification
--   with nested transactions, Refinement/Persist its histories with calls that fail. Dropping a
--   transaction cannot wait for the engine, so it only notes the rollback.
-- * The executor (executor.rs) inspects a SQL text (Executor/Inspect): several statements go to the
--   engine as a batch, one is prepared and its rows are streamed (Executor/Fetch). A peekable character
--   iterator is the list of the characters that are left; a loop over it has the length of the text
--   as fuel, since each round takes a character. Executor/Inspect/Lexical describes SQL texts by their
--   tokens, independently of the scanners. Executor/Fetch/Optional has the other methods; the loop of
--   `fetch_optional` has two polls as fuel, which are enough. Executor/Fetch/Cached, Owned and Calls
--   are about the statement cache.
-- * Columns, statements, declared types and errors (column.rs, statement.rs, type_info.rs, error.rs)
--   are Column, Statement, TypeInfo and Error. A message is a constructor that carries what its text
--   shows.
-- * Values, rows and arguments (value.rs, row.rs, query_result.rs, arguments.rs) are Value, Row and
--   Arguments. Value/Types has `type_info` and `compatible` of every Rust type, Value/Integers,
--   Value/Codec, Value/Chrono and Value/Time their `Encode` and `Decode`; Value/RoundTrip/Bound binds
--   values of these types in a row.
-- * Which Rust type the checked macros give a column (macros.rs) is TypePath; the macro crate
--   (crates/sqlx-turso-macros/src/lib.rs) is Macros: token trees without spans, the rewriting of the
--   paths in them, and the tokens of each macro.
-- * The command line tool (crates/sqlx-turso-cli/src/main.rs) is Cli: the staging directory of
--   `prepare` (Cli/Sibling, Cli/Prepare), the program that is run on it, and its commit. Cli/Commit says
--   in the record IsLawful what a file system does, as hypotheses; Cli/Prepared and Cli/Kept are about
--   whole runs. The search for a free name counts without a bound; it is given fuel, of which one more
--   than there are names is enough.
-- * The names of migration tables (migrate.rs) are Migrate/Identifier: they are parsed, and written
--   quoted into SQL texts. The loop of the path parser has two rounds as fuel, as it refuses a third
--   name.
-- * Migrations (migrate.rs, lifecycle.rs) are Migrate/Runs, which applies, reverts and skips a
--   migration over the transaction manager, Migrate/Runner, which sends its queries through the
--   executor, Migrate/Queries, which asks for the schema and table, and Migrate/Files, which drops and
--   finds a database.
-- * The options of a connection (options.rs) are Options: setters and defaults, pragmas, the smaller
--   settings, the experimental features, chains of setters in Options/Setters, and in Options/Url the
--   reading of a connection URL and, in Write and Build, the URL that is built. The counter of the
--   in-memory databases is passed along.
-- * The driver (driver.rs) is Builder, what the engine's builders are told, and Driver: the checks of
--   the options (Driver/Accepts, Driver/Opens), the shared in-memory database, and the pragmas that are
--   sent (Driver/Sent and, with the setters of the options, Driver/Given). The Any driver (any.rs) is Any.
--
-- An async method is a plain function: a connection is used by one task at a time, and each `await`
-- ends before the next statement. A method that takes `&mut self` and may fail is an Action: the state
-- is passed on also where it fails. Characters are code points, `usize` and `u64` are bounded at
-- 2 ^ 64 where they are parsed or summed, a duration is its nanoseconds.
--
-- Parameters, since they are not code of this repository: the engine (Engine), the statement cache
-- and the transaction texts of sqlx-core (Statement.StatementCache, Engine.AnsiSql), the URL crates
-- (Options.Url.UrlCodec, Options.Url.Build.UrlCrate), the engine's builders (Builder.Builders) and
-- its sync database (Connection.Sync.SyncEngine), the file system (Migrate.Files.FileSystem,
-- Cli.FileSystem) and paths (Cli.Paths), what sqlx-core does with the stream of a query
-- (Migrate.Runner.Collector, Migrate.Queries.QueryRunner), its Any types (Any.Backend.AnyCrate),
-- the crates uuid, serde_json, chrono and time and the arithmetic of floats (Value.Codec,
-- Value.Chrono, Value.Time), the parsers and the expansion of the macro crates
-- (Macros.Queries.MacroCrates), custom IO backends and log settings. What is relied on in them
-- stands in records of hypotheses: Transaction.Laws.Transactional and
-- Transaction.Refinement.Failing.FailsCleanly for the engine's transactions,
-- Migrate.Runs.Laws.QueryLaws for the texts of migrations, Executor.Fetch.Cached.CacheLaws for the
-- statement cache, Driver.Updates.PragmaLog and Driver.Opens.Willing for the engine's builders,
-- Options.Url.Crate.UrlLaws for URLs, Cli.Commit.IsLawful for file systems.
--
-- Not modelled: getters that return a field and calls that do nothing, the parsing of the command line
-- and the printing of help, the parsing of a macro's input; trait plumbing, re-exports and tests.
pub mod Base
pub mod Text
pub mod Error
pub mod Macros
pub mod Cli
pub mod Map
pub mod TypeInfo
pub mod Column
pub mod Engine
pub mod Statement
pub mod Action
pub mod Connection
pub mod Transaction
pub mod Executor
pub mod Migrate
pub mod Options
pub mod Builder
pub mod Driver
pub mod Any
pub mod TypePath
pub mod Value
pub mod Row
pub mod Arguments
mod Tests
