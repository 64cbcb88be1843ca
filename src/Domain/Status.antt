-- ===== src/Domain/Status.antt =====
-- `CrawlStatus` of internal/domain/model/url.go.
use oafse.Common.{String}

pub data CrawlStatus : Type 0 where
  unknown queued processing done manual give_up retry : CrawlStatus

-- `CrawlStatus.String`
unfoldable pub status_string : CrawlStatus → String
status_string CrawlStatus.queued = "Queued"
status_string CrawlStatus.processing = "Processing"
status_string CrawlStatus.done = "Done"
status_string CrawlStatus.manual = "Manual"
status_string CrawlStatus.retry = "Retry"
status_string CrawlStatus.give_up = "GiveUp"
status_string CrawlStatus.unknown = "Unknown"
