-- ===== src/Redis/Placement.antt =====
-- Where a URL stands in Redis, given its status record: once in the queue, in the processing index
-- and in one worker's list, or in the retry queue, and nowhere else.
pub mod Steps
pub mod Take
pub mod Enqueue
use oafse.Common.{ℕ, ◌+◌, ◌≡◌, String, Option, none, some, List, [], if◌then◌else◌, str_eq, count}
use oafse.Storage.Model.{CrawlStatus}
use oafse.Redis.Info.{queue, retry_queue, processing_index, url_status, worker, UrlInfo}
use oafse.Redis.Db.{Db}
use oafse.Redis.Counts.{zcount}

abbrev pub queued_at : CrawlStatus → ℕ
queued_at CrawlStatus.queued = 1
queued_at _ = 0

abbrev pub processing_at : CrawlStatus → ℕ
processing_at CrawlStatus.processing = 1
processing_at _ = 0

abbrev pub retry_at : CrawlStatus → ℕ
retry_at CrawlStatus.retry = 1
retry_at _ = 0

-- A URL that was never seen counts as one with the unknown status.
abbrev pub status_of : Option UrlInfo → CrawlStatus
status_of none = CrawlStatus.unknown
status_of (some info) = info.status

-- How often the worker's list holds the URL.
abbrev pub held_by : String → Option UrlInfo → ℕ
held_by w none = 0
held_by w (some info) = if str_eq info.worker_id w then processing_at info.status else 0

-- `pending` are the URLs that a running `enqueueURLsScript` has taken from the retry queue.
pub record IsPlaced (pending : List String) (db : Db) (u : String) : Type 0 where
  pub in_queue : count u (db.lists queue) ≡ queued_at (status_of (db.hashes url_status u))
  pub in_index :
      count u (db.sets processing_index) ≡ processing_at (status_of (db.hashes url_status u))
  pub in_retry :
      count u pending + zcount u (db.zsets retry_queue)
      ≡ retry_at (status_of (db.hashes url_status u))
  pub in_worker : (w : String) → count u (db.lists (worker w)) ≡ held_by w (db.hashes url_status u)

-- Every URL has its place.
abbrev pub AllPlaced : Db → Type 0
AllPlaced db = (u : String) → IsPlaced [] db u

-- A status with which a URL stands in no queue, list or index.
abbrev pub IsFinal : CrawlStatus → Type 0
IsFinal status = (queued_at status ≡ 0) × (processing_at status ≡ 0) × (retry_at status ≡ 0)
