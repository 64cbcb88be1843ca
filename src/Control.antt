-- ===== src/Control.antt =====
-- internal/di/di.go: the server that seeds the crawler, the crawl handler over the URL repository.
pub mod Cleared
pub mod Uncached
pub mod Seeded
mod Examples
use oafse.Common.{List}
use oafse.Domain.Url.{NetUrl}
use oafse.Redis.Api.{Redis}
use oafse.Redis.Net.{Link}
use oafse.Redis.UrlDs.{KeyScan}
use oafse.Repo.UrlRepo.{repo_start, repo_reset_crawl_cache}
use oafse.Http.{SeedPorts}

-- `NewCrawlHandler` with the URL repository that fx provides.
abbrev pub seed_ports : NetUrl → (r : Redis) → List KeyScan → Link → SeedPorts r.Store
seed_ports net r scans link = record {
  reset_crawl_cache = repo_reset_crawl_cache net r scans;
  start = repo_start net r link;
}
