-- ===== src/Port/Crawl.antt =====
-- What the parse use case calls: internal/application/port/repo.go, fetcher.go, extractor.go and
-- processing.go, with the counter of attempts, the clock and the random number that it uses, over one state `S` of the
-- world. A context only ends a call early, with an error.
use oafse.Common.{ℕ, String, Option, List}
use oafse.Common.Int.{ℤ}
use oafse.Common.Go.{GoResult}
use oafse.Domain.Status.{CrawlStatus}
use oafse.Domain.Url.{Url}
use oafse.Domain.Page.{Page}
use oafse.Port.Fetch.{FetchData}
use oafse.Metrics.{AttemptStatus}

-- Times are in nanoseconds of the Unix time; the zero time is `none`.
pub record CrawlMetadata : Type 0 where
  pub unprocessed_count : ℕ
  pub earliest_retry : Option ℤ

-- A duration in nanoseconds.
pub record ParseCmd : Type 0 where
  pub sleep_for : ℤ

pub record CrawlPorts (S F : Type 0) : Type 0 where
  pub take_on : String → S → GoResult Url × S
  pub push_urls : List Url → S → GoResult (List Url) × S
  pub retry_url : String → ℤ → S → GoResult (Unit {0}) × S
  pub mark_processed : String → CrawlStatus → S → GoResult (Unit {0}) × S
  pub get_crawl_metadata : S → GoResult CrawlMetadata × S
  pub save_page : Page F → S → GoResult ℕ × S
  pub save_link : String → ℕ → S → GoResult (Unit {0}) × S
  pub fetch : Url → S → GoResult FetchData × S
  pub extract : FetchData → S → GoResult (Page F × List Url) × S
  -- `metrics.FetchAttempts.WithLabelValues(label).Inc()`
  pub count_attempt : AttemptStatus → S → S
  -- `CalcRetryTime` with the configuration and the clock; `none` is a refusal.
  pub calc_retry_time : ℕ → S → Option ℤ
  -- `URL.String` of net/url
  pub url_string : Url → String
  -- `time.Now()`, and `time.Now()` again inside `time.Until`
  pub now : S → ℤ
  pub now_later : S → ℤ
  -- `rand.N(100 * time.Millisecond)`
  pub jitter : S → ℕ
