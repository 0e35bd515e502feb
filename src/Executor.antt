-- ===== src/Executor.antt =====
-- crates/sqlx-turso-core/src/executor.rs.
pub mod Inspect
pub mod Fetch
