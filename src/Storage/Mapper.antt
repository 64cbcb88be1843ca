-- ===== src/Storage/Mapper.antt =====
-- internal/infrastructure/storage/mapper: between the domain's types and the stored ones.
use oafse.Common.{Option, none, some}
use oafse.Common.Go.{GoResult, ok, err, Error}
use oafse.Domain.Status
use oafse.Domain.Url.{Url, GoUrl, NetUrl, normalize}
use oafse.Domain.Page.{Page}
use oafse.Port.Crawl
use oafse.Storage.Model
use oafse.Storage.Model.{UrlCache, PageDb}

abbrev pub to_storage_crawl_status : Status.CrawlStatus → Model.CrawlStatus
to_storage_crawl_status Status.CrawlStatus.queued = Model.CrawlStatus.queued
to_storage_crawl_status Status.CrawlStatus.processing = Model.CrawlStatus.processing
to_storage_crawl_status Status.CrawlStatus.done = Model.CrawlStatus.done
to_storage_crawl_status Status.CrawlStatus.manual = Model.CrawlStatus.manual
to_storage_crawl_status Status.CrawlStatus.give_up = Model.CrawlStatus.give_up
to_storage_crawl_status Status.CrawlStatus.retry = Model.CrawlStatus.retry
to_storage_crawl_status Status.CrawlStatus.unknown = Model.CrawlStatus.unknown

module _ (net : NetUrl) where
  abbrev pub domain_url_of : UrlCache → Option GoUrl → GoResult Url
  domain_url_of u none = err Error.bad_url
  domain_url_of u (some unnorm) =
      ok (record { url = normalize net unnorm; parent = u.parent; try = u.try })

  abbrev pub to_domain_url : UrlCache → GoResult Url
  to_domain_url u = domain_url_of u (net.parse u.url)

  abbrev pub to_storage_url : Url → UrlCache
  to_storage_url u = record { url = net.string u.url; parent = u.parent; try = u.try }

abbrev pub to_domain_crawl_metadata : Model.CrawlMetadata → Crawl.CrawlMetadata
to_domain_crawl_metadata md = record {
  unprocessed_count = md.unprocessed_count;
  earliest_retry = md.earliest_retry;
}

module _ {F : Type 0} where
  abbrev pub to_domain_page : PageDb F → Page F
  to_domain_page page = record {
    url = page.url;
    title = page.title;
    description = page.description;
    content = page.content;
    crawled_at = page.crawled_at;
    vector = page.vector;
  }

  abbrev pub to_storage_page : Page F → PageDb F
  to_storage_page page = record {
    url = page.url;
    title = page.title;
    description = page.description;
    content = page.content;
    crawled_at = page.crawled_at;
    vector = page.vector;
  }
