-- ===== src/Redis.antt =====
-- The crawler's Redis store: internal/infrastructure/storage/redis.
pub mod Info
pub mod Db
pub mod Api
pub mod Counts
pub mod Scripts
pub mod Sorted
pub mod Placement
pub mod Net
pub mod Queue
pub mod Processing
pub mod UrlDs
pub mod Reach
pub mod Frontier
mod Examples
