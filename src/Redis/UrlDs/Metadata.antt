-- ===== src/Redis/UrlDs/Metadata.antt =====
-- What the lengths of the queues tell of the statuses: for `GetCrawlMetadata`, and for the gauges.
use oafse.Common.{
  ◌≤◌, ◌≡◌, ◌≢◌, ◌∙◌, ◌↔◌, String, List, [], ◌∷◌, refl, arith, length, count, eq_iff,
}
use oafse.Storage.Model.{CrawlMetadata, CrawlStatus}
use oafse.Redis.Info.{queue, retry_queue, processing_index}
use oafse.Redis.Db.{Scored}
use oafse.Redis.Counts.{zcount}
use oafse.Redis.Api.{Redis}
use oafse.Redis.Scripts.{hget, crawl_metadata}
use oafse.Redis.Net.{ok, up}
use oafse.Redis.UrlDs.{get_crawl_metadata}
use oafse.Redis.Placement.{AllPlaced, IsFinal, status_of, queued_at, retry_at}

count-le-length : (u : String) (xs : List String) → count u xs ≤ length xs
count-le-length u [] = omega arith
count-le-length u (x ∷ xs) = ground (arith, count-le-length u xs)

zcount-le-length : (u : String) (es : List Scored) → zcount u es ≤ length es
zcount-le-length u [] = omega arith
zcount-le-length u (e ∷ es) = ground (arith, zcount-le-length u es)

-- A list that holds nothing is empty.
length-zero : (xs : List String) → ((u : String) → count u xs ≡ 0) → length xs ≡ 0
length-zero [] h = refl
length-zero (x ∷ xs) h = absurd (ground (arith, h x, eq_iff x x))

zlength-zero : (es : List Scored) → ((u : String) → zcount u es ≡ 0) → length es ≡ 0
zlength-zero [] h = refl
zlength-zero (e ∷ es) h = absurd (ground (arith, h e.member, eq_iff e.member e.member))

module _ (r : Redis) (s : r.Store) (placed : AllPlaced (r.contents s)) where
  IsFinal-of_zero : (crawl_metadata r s).0 ≡ 0 → (url : String) → IsFinal (status_of (hget r url s))
  unfolding crawl_metadata
  IsFinal-of_zero z url = omega (
    arith,
    placed url,
    count-le-length url ((r.contents s).lists queue),
    count-le-length url ((r.contents s).sets processing_index),
    zcount-le-length url ((r.contents s).zsets retry_queue),
  )

  zero-IsFinal : ((url : String) → IsFinal (status_of (hget r url s))) → (crawl_metadata r s).0 ≡ 0
  unfolding crawl_metadata
  zero-IsFinal f = omega (
    arith,
    length-zero ((r.contents s).lists queue) (λ u. omega (arith, (placed u).in_queue, f u)),
    length-zero ((r.contents s).sets processing_index)
        (λ u. omega (arith, (placed u).in_index, f u)),
    zlength-zero ((r.contents s).zsets retry_queue) (λ u. omega (arith, (placed u).in_retry, f u)),
  )

queued_at-zero : (c : CrawlStatus) → c ≢ CrawlStatus.queued → queued_at c ≡ 0
queued_at-zero c h = ground (arith, h)

retry_at-zero : (c : CrawlStatus) → c ≢ CrawlStatus.retry → retry_at c ≡ 0
retry_at-zero c h = ground (arith, h)

module _ (r : Redis) (s : r.Store) (placed : AllPlaced (r.contents s)) where
  pub queue_empty_iff :
      (length ((r.contents s).lists queue) ≡ 0)
      ↔ ((url : String) → status_of (hget r url s) ≢ CrawlStatus.queued)
  queue_empty_iff = (
    λ z url h.
        ground
          (arith, z, h, (placed url).in_queue, count-le-length url ((r.contents s).lists queue)),
    λ f.
        length-zero ((r.contents s).lists queue)
          (λ u. (placed u).in_queue ∙ queued_at-zero (status_of (hget r u s)) (f u)),
  )

  pub retry_queue_empty_iff :
      (length ((r.contents s).zsets retry_queue) ≡ 0)
      ↔ ((url : String) → status_of (hget r url s) ≢ CrawlStatus.retry)
  retry_queue_empty_iff = (
    λ z url h. ground (
      arith,
      z,
      h,
      (placed url).in_retry,
      zcount-le-length url ((r.contents s).zsets retry_queue),
    ),
    λ f.
        zlength-zero ((r.contents s).zsets retry_queue)
          (λ u. omega (arith, (placed u).in_retry, retry_at-zero (status_of (hget r u s)) (f u))),
  )

-- Where every URL has its place, the unprocessed count that `GetCrawlMetadata` returns is 0 exactly
-- when no URL is queued, in processing or waiting for a retry.
pub get_crawl_metadata_finished :
    (r : Redis) (s : r.Store) (md : CrawlMetadata)
    → AllPlaced (r.contents s)
    → get_crawl_metadata r up s ≡ (ok md, s)
    → (md.unprocessed_count ≡ 0) ↔ ((url : String) → IsFinal (status_of (hget r url s)))
unfolding get_crawl_metadata
get_crawl_metadata_finished r s md p e =
    (λ z. IsFinal-of_zero r s p (ground arith), λ f. ground (arith, zero-IsFinal r s p f))
