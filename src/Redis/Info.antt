-- ===== src/Redis/Info.antt =====
-- The types and keys of internal/infrastructure/storage/redis/url_ds.go.
use oafse.Common.{ℕ, String, Bool, true, false, Option, str_eq}
use oafse.Common.Int.{ℤ}
use oafse.Storage.Model.{CrawlStatus}

-- `URLInfo` of url_ds.go. The Lua scripts may leave `parent` out of the table.
pub record UrlInfo : Type 0 where
  pub status : CrawlStatus
  pub worker_id : String
  pub take_on_at : ℤ
  pub try : ℕ
  pub retry_at : ℤ
  pub parent : Option String

-- KeyQueue, KeyRetry, KeyProcessingIndex, KeyURLStatus, WorkerKey(id); `other` is any key that does
-- not begin with "crawler:".
pub data Key : Type 0 where
  queue retry_queue processing_index url_status : Key
  worker other : String → Key

abbrev pub key_eq : Key → Key → Bool
key_eq queue queue = true
key_eq retry_queue retry_queue = true
key_eq processing_index processing_index = true
key_eq url_status url_status = true
key_eq (worker a) (worker b) = str_eq a b
key_eq (other a) (other b) = str_eq a b
key_eq _ _ = false
