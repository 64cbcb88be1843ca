-- ===== src/Postgres.antt =====
-- internal/infrastructure/storage/postgres: the errors and the SQL of the pages and links.
mod Examples
pub mod Errors
pub mod Pages
pub mod PageDs
pub mod Similar
pub mod Notify
pub mod PoolStats
