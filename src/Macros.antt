-- ===== src/Macros.antt =====
-- crates/sqlx-turso-macros/src/lib.rs: the tokens that the checked macros hand to `sqlx`, and the
-- rewriting of the paths in those that come back.
pub mod Rewrite
pub mod Laws
pub mod Paths
pub mod Queries
