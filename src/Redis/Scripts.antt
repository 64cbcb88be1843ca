-- ===== src/Redis/Scripts.antt =====
-- The Lua scripts of internal/infrastructure/storage/redis. A script runs atomically: it takes the
-- store and gives its reply with the new store. A Lua error stops a script and undoes nothing.

pub mod Simulation
use oafse.Common.{ℕ, ◌+◌, String, Option, none, some, List, [], ◌∷◌, Bool, true, false, length}
use oafse.Common.Int.{ℤ, pos, negsuc}
use oafse.Storage.Model.{CrawlStatus}
use oafse.Redis.Info.{queue, retry_queue, processing_index, url_status, worker, UrlInfo}
use oafse.Redis.Db.{Scored, zmembers_upto}
use oafse.Redis.Api.{Redis}

-- The reply of `popURLScript`: nil, the table {url, try, parent}, or an error of the script. A Lua
-- table is sent up to its first nil, so that without a parent the reply has two elements.
pub data PopReply : Type 0 where
  nil : PopReply
  fields : String → ℕ → Option String → PopReply
  decode_error : PopReply

-- The reply of a script that may answer `redis.error_reply('url not found: ' .. url)`.
pub data Done : Type 0 where
  done : Done
  url_not_found : String → Done

-- The record that `pushURLScript` makes, and the one that a script makes for a URL with none.
abbrev pub pushed_info : Option String → ℕ → UrlInfo
pushed_info parent try = record {
  status = CrawlStatus.queued;
  worker_id = "";
  take_on_at = negsuc 0;
  try = try;
  retry_at = negsuc 0;
  parent = parent;
}

abbrev pub enqueued_info : Option UrlInfo → UrlInfo
enqueued_info none = pushed_info none 1
enqueued_info (some info) = record info { status = CrawlStatus.queued }

abbrev pub earliest_score : List Scored → Option ℤ
earliest_score [] = none
earliest_score (e ∷ es) = some e.score

module _ (r : Redis) where
  open r use {Store, contents}

  abbrev pub hget : String → Store → Option UrlInfo
  hget url s = (contents s).hashes url_status url

  abbrev pub pop_taken : String → ℕ → String → Option UrlInfo → Store → PopReply × Store
  pop_taken worker_id now url none s = (decode_error, s)
  pop_taken worker_id now url (some info) s = (
    fields url info.try info.parent,
    r.sadd processing_index url (
        r.hset url_status url
          (record info {
            status = CrawlStatus.processing;
            worker_id = worker_id;
            take_on_at = pos now;
          })
          s),
  )

  -- LMOVE, then the script's test of the URL that it moved.
  abbrev pub pop_moved : String → ℕ → Option String → Store → PopReply × Store
  pop_moved worker_id now none s = (nil, s)
  pop_moved worker_id now (some url) s = pop_taken worker_id now url (hget url s) s

  unfoldable pub pop_url : String → ℕ → Store → PopReply × Store
  pop_url worker_id now s =
      pop_moved worker_id now (r.lmove_reply queue (worker worker_id) s)
        (r.lmove queue (worker worker_id) s)

  abbrev pub push_unseen : String → String → Option UrlInfo → Store → Bool × Store
  push_unseen url parent (some _) s = (false, s)
  push_unseen url parent none s =
      (true, r.hset url_status url (pushed_info (some parent) 0) (r.lpush queue url s))

  unfoldable pub push_url : String → String → Store → Bool × Store
  push_url url parent s = push_unseen url parent (hget url s) s

  abbrev pub retry_known : String → ℤ → Option UrlInfo → Store → Done × Store
  retry_known url retry_at none s = (url_not_found url, s)
  retry_known url retry_at (some info) s = (
    done,
    r.zadd retry_queue (record { member = url; score = retry_at })
        (r.srem processing_index url (
          r.lrem_first (worker info.worker_id) url (
            r.hset url_status url
              (record info { status = CrawlStatus.retry; try = info.try + 1; retry_at = retry_at })
              s))),
  )

  unfoldable pub retry_url : String → ℤ → Store → Done × Store
  retry_url url retry_at s = retry_known url retry_at (hget url s) s

  abbrev pub mark_known : String → CrawlStatus → Option UrlInfo → Store → Done × Store
  mark_known url status none s = (url_not_found url, s)
  mark_known url status (some info) s = (
    done,
    r.srem processing_index url (
        r.lrem_first (worker info.worker_id) url
          (r.hset url_status url (record info { status = status }) s)),
  )

  unfoldable pub mark_processed : String → CrawlStatus → Store → Done × Store
  mark_processed url status s = mark_known url status (hget url s) s

  -- The two arms of `recoverScript`; it always answers 1.
  abbrev pub recover_known : String → Option UrlInfo → Store → Store
  recover_known url none s =
      r.hset url_status url (pushed_info none 0) (r.lpush queue url (r.srem processing_index url s))
  recover_known url (some info) s = r.lpush queue url (
      r.srem processing_index url (
        r.lrem_all (worker info.worker_id) url
          (r.hset url_status url (record info { status = CrawlStatus.queued }) s)))

  unfoldable pub recover : String → Store → Store
  recover url s = recover_known url (hget url s) s

  -- One round of the loop of `enqueueURLsScript`.
  abbrev pub enqueue_one : String → Store → Store
  enqueue_one url s = r.lpush queue url (r.hset url_status url (enqueued_info (hget url s)) s)

  unfoldable pub enqueue_each : List String → Store → Store
  enqueue_each [] s = s
  enqueue_each (url ∷ urls) s = enqueue_each urls (enqueue_one url s)

  abbrev pub enqueue_due : ℕ → List String → Store → Store
  enqueue_due now [] s = s
  enqueue_due now (url ∷ urls) s = enqueue_each (url ∷ urls) (r.zremrangebyscore retry_queue now s)

  unfoldable pub enqueue_urls : ℕ → Store → Store
  unfolding enqueue_each
  enqueue_urls now s = enqueue_due now (zmembers_upto now ((contents s).zsets retry_queue)) s

  -- The reply of `enqueueURLsScript`: ZCARD of the retry queue afterwards.
  unfoldable pub retry_count : Store → ℕ
  retry_count s = length ((contents s).zsets retry_queue)

  -- `getCrawlMetadataScript`: {total, earliest}.
  unfoldable pub crawl_metadata : Store → ℕ × Option ℤ
  crawl_metadata s = (
    length ((contents s).lists queue)
        + length ((contents s).zsets retry_queue)
        + length ((contents s).sets processing_index),
    earliest_score ((contents s).zsets retry_queue),
  )
