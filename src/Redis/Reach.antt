-- ===== src/Redis/Reach.antt =====
-- What the clients of one Redis server do to it between them: every script that a worker, the
-- health check or the control API runs is one step, in any order.
pub mod Place
pub mod Earliest
pub mod Tries
pub mod Retried
mod Examples
use oafse.Common.{ℕ, ◌≡◌, String, Bool}
use oafse.Common.Int.{ℤ}
use oafse.Storage.Model.{CrawlStatus}
use oafse.Redis.Api.{Redis}
use oafse.Redis.Scripts.{hget, push_url, pop_url, retry_url, mark_processed, recover, enqueue_urls}
use oafse.Redis.Placement.{status_of, IsFinal}

-- A worker retries or marks a URL that it holds, and the health check recovers one that is held.
pub data Step (r : Redis) : r.Store → r.Store → Type 0 where
  pushes : {s : r.Store} (url parent : String) → Step r s (push_url r url parent s).1
  takes : {s : r.Store} (id : String) (now : ℕ) → Step r s (pop_url r id now s).1
  retries :
      {s : r.Store} (url : String) (at : ℤ)
      → status_of (hget r url s) ≡ CrawlStatus.processing
      → Step r s (retry_url r url at s).1
  marks :
      {s : r.Store} (url : String) (status : CrawlStatus)
      → status_of (hget r url s) ≡ CrawlStatus.processing
      → IsFinal status
      → Step r s (mark_processed r url status s).1
  recovers :
      {s : r.Store} (url : String)
      → status_of (hget r url s) ≡ CrawlStatus.processing
      → Step r s (recover r url s)
  enqueues : {s : r.Store} (now : ℕ) → Step r s (enqueue_urls r now s)

pub data Reach (r : Redis) (s : r.Store) : r.Store → Type 0 where
  here : Reach r s s
  next : {t u : r.Store} → Reach r s t → Step r t u → Reach r s u
