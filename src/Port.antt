-- ===== src/Port.antt =====
-- internal/application/port: the interfaces between the use cases and the infrastructure.
pub mod Fetch
pub mod Crawl
