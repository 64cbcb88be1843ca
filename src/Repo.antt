-- ===== src/Repo.antt =====
-- internal/infrastructure/storage/repo: the repositories over the data sources.
pub mod PageRepo
mod Examples
pub mod UrlRepo
