-- ===== src/Repo/UrlRepo.antt =====
-- url_repo.go: the URL repository over its data source.
pub mod Rounds
use oafse.Common.{ℕ, String, List, [], ◌∷◌, map}
use oafse.Common.Int.{ℤ}
use oafse.Common.Go.{GoResult, ok, err, panic, and_then}
use oafse.Domain.Status.{CrawlStatus}
use oafse.Domain.Url.{Url, NetUrl}
use oafse.Port.Crawl.{CrawlMetadata}
use oafse.Storage.Model.{UrlCache}
use oafse.Storage.Mapper.{
  to_domain_url, to_storage_url, to_storage_crawl_status, to_domain_crawl_metadata,
}
use oafse.Redis.Api.{Redis}
use oafse.Redis.Net.{Link}
use oafse.Redis.Queue.{Pipe, push_urls}
use oafse.Redis.Processing.{processing_retry_url, processing_mark_processed}
use oafse.Redis.UrlDs.{KeyScan, start, take_on, get_crawl_metadata, reset_crawl_cache}

module _ (net : NetUrl) where
  -- The loop over the pushed URLs; the first text that does not parse ends it.
  abbrev pub with_url : GoResult Url → GoResult (List Url) → GoResult (List Url)
  with_url (ok u) (ok us) = ok (u ∷ us)
  with_url (ok u) rest = rest
  with_url (err e) rest = err e
  with_url panic rest = panic

  abbrev pub to_domain_urls : List UrlCache → GoResult (List Url)
  to_domain_urls [] = ok []
  to_domain_urls (u ∷ us) = with_url (to_domain_url net u) (to_domain_urls us)

  module _ (r : Redis) where
    open r use {Store}

    abbrev pub repo_start : Link → String → Store → GoResult (Unit {0}) × Store
    repo_start link url s = start r link url s

    abbrev pub repo_reset_crawl_cache : List KeyScan → Store → GoResult (Unit {0}) × Store
    repo_reset_crawl_cache scans s = reset_crawl_cache r scans s

    unfoldable pub repo_take_on : Link → Link → String → ℕ → ℕ → Store → GoResult Url × Store
    repo_take_on enqueue_link pop_link worker_id now later s =
        and_then (take_on r enqueue_link pop_link worker_id now later s)
          λ u s'. (to_domain_url net u, s')

    unfoldable pub repo_push_urls : Pipe → List Url → Store → GoResult (List Url) × Store
    repo_push_urls pipe urls s =
        and_then (push_urls r pipe (map (to_storage_url net) urls) s)
          λ pushed s'. (to_domain_urls pushed, s')

    unfoldable pub repo_retry_url : Link → String → ℤ → Store → GoResult (Unit {0}) × Store
    repo_retry_url link url retry_at s = processing_retry_url r link url retry_at s

    unfoldable pub repo_mark_processed :
        Link → String → CrawlStatus → Store → GoResult (Unit {0}) × Store
    repo_mark_processed link url status s =
        processing_mark_processed r link url (to_storage_crawl_status status) s

    unfoldable pub repo_get_crawl_metadata : Link → Store → GoResult CrawlMetadata × Store
    repo_get_crawl_metadata link s =
        and_then (get_crawl_metadata r link s) λ md s'. (ok (to_domain_crawl_metadata md), s')
