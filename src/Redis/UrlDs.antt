-- ===== src/Redis/UrlDs.antt =====
-- url_ds.go: the data source of the URL repository, over the queue, the processing lists and the
-- retry queue; `EnqueueURLs` is of retry.go.
pub mod Metadata
pub mod Checking
mod Examples
use oafse.Common.{ℕ, String, Option, none, some, List, [], ◌∷◌}
use oafse.Common.Int.{ℤ, from_unix_milli}
use oafse.Storage.Model.{UrlCache, CrawlMetadata}
use oafse.Redis.Info.{Key, UrlInfo}
use oafse.Redis.Api.{Redis}
use oafse.Redis.Scripts.{hget, enqueue_urls, retry_count, crawl_metadata}
use oafse.Redis.Net.{GoResult, ok, err, Error, Link, call, and_then, transport}
use oafse.Redis.Queue.{queue_take_on, push_one}

-- One reply to SCAN "crawler:*", and the fate of the DEL that follows it.
pub data KeyScan : Type 0 where
  scan_failed : KeyScan
  keys : List Key → Link → KeyScan

-- `time.UnixMilli(earliest)`; the zero time where there is no score.
abbrev pub earliest_time : Option ℤ → Option ℤ
earliest_time none = none
earliest_time (some ms) = some (from_unix_milli ms)

abbrev pub found_info : Option UrlInfo → GoResult UrlInfo
found_info none = err Error.info_not_found
found_info (some info) = ok info

module _ (r : Redis) where
  open r use {Store}

  -- retry.go: the reply is the number of URLs that still wait.
  unfoldable pub enqueue : Link → ℕ → Store → GoResult ℕ × Store
  enqueue link now s = call link (λ s'. let t = enqueue_urls r now s' in (retry_count r t, t)) s

  unfoldable pub start : Link → String → Store → GoResult (Unit {0}) × Store
  unfolding push_one
  start link url s =
      and_then (push_one r link (record { url = url; parent = ""; try = 0 }) s) λ _ s'. (ok tt, s')

  unfoldable pub take_on : Link → Link → String → ℕ → ℕ → Store → GoResult UrlCache × Store
  unfolding enqueue queue_take_on
  take_on enqueue_link pop_link worker_id now later s =
      and_then (enqueue enqueue_link now s) λ _ s'. queue_take_on r pop_link worker_id later s'

  unfoldable pub get_url_info : Link → String → Store → GoResult UrlInfo × Store
  get_url_info link url s =
      and_then (call link (λ s'. (hget r url s', s')) s) λ o s'. (found_info o, s')

  unfoldable pub get_crawl_metadata : Link → Store → GoResult CrawlMetadata × Store
  unfolding crawl_metadata
  get_crawl_metadata link s =
      and_then (call link (λ s'. (crawl_metadata r s', s')) s)
        λ m s'. (ok (record { unprocessed_count = m.0; earliest_retry = earliest_time m.1 }), s')

  unfoldable pub del_all : List Key → Store → Store
  del_all [] s = s
  del_all (k ∷ ks) s = del_all ks (r.del k s)

  -- `if len(keys) > 0`: no request is sent for an empty batch.
  abbrev pub del_batch : List Key → Link → Store → GoResult (Unit {0}) × Store
  del_batch [] link s = (ok tt, s)
  del_batch (k ∷ ks) link s = call link (λ s'. (tt, del_all (k ∷ ks) s')) s

  unfoldable pub reset_crawl_cache : List KeyScan → Store → GoResult (Unit {0}) × Store
  unfolding del_all
  reset_crawl_cache [] s = (ok tt, s)
  reset_crawl_cache (scan_failed ∷ scans) s = (err transport, s)
  reset_crawl_cache (keys ks link ∷ scans) s =
      and_then (del_batch ks link s) λ _ s'. reset_crawl_cache scans s'
