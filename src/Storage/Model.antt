-- ===== src/Storage/Model.antt =====
-- internal/infrastructure/storage/model/url.go and page.go.
use oafse.Common.Int.{ℤ}
use oafse.Common.{ℕ, String, Option, List}

-- `UnknownCrawlStatus` is 0, and the others follow in this order.
pub data CrawlStatus : Type 0 where
  unknown queued processing done manual give_up retry : CrawlStatus

-- A URL with its metadata, as the queue hands it out.
pub record UrlCache : Type 0 where
  pub url : String
  pub parent : String
  pub try : ℕ

-- `EarliestRetry` in nanoseconds of the Unix time; the zero `time.Time` is `none`.
pub record CrawlMetadata : Type 0 where
  pub unprocessed_count : ℕ
  pub earliest_retry : Option ℤ

-- `PageDB` of page.go, with `F` the type of float32: a slice is nil, or its elements. The zero
-- `CrawledAt` is `none`.
pub record PageDb (F : Type 0) : Type 0 where
  pub url : String
  pub title : String
  pub description : String
  pub content : String
  pub crawled_at : Option ℤ
  pub vector : Option (List F)
