-- ===== src/Migrate.antt =====
-- crates/sqlx-turso-core/src/migrate.rs and lifecycle.rs: migrations.
pub mod Identifier
pub mod Files
pub mod Runner
pub mod Runs
pub mod Queries
