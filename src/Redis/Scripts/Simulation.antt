-- ===== src/Redis/Scripts/Simulation.antt =====
-- Every server that meets `Redis.Api` runs the scripts as the reference server does.
use oafse.Common.{ℕ, ◌≡◌, String, Option, none, some, List, [], ◌∷◌, refl}
use oafse.Common.Int.{ℤ}
use oafse.Storage.Model.{CrawlStatus}
use oafse.Redis.Info.{queue, retry_queue, UrlInfo, worker}
use oafse.Redis.Db.{zmembers_upto}
use oafse.Redis.Api.{Redis, reference, observe}
use oafse.Redis.Scripts.{
  hget, pop_taken, pop_moved, pop_url, push_unseen, push_url, retry_known, retry_url, mark_known,
  mark_processed, recover_known, recover, enqueue_one, enqueue_each, enqueue_due, enqueue_urls,
}

module _ (r : Redis) where
  open r use {
    Store, contents, before, contents-lpush, contents-lrem_first, contents-lrem_all, lmove_reply-eq,
    contents-lmove, contents-hset, contents-sadd, contents-srem, contents-zadd,
    contents-zremrangebyscore,
  }

  pub observe-push_unseen :
      (url parent : String) (o : Option UrlInfo) (s : Store)
      → observe r (push_unseen r url parent o s)
        ≡ push_unseen (reference before) url parent o (contents s)
  observe-push_unseen url parent none s = simp (contents-hset, contents-lpush)
  observe-push_unseen url parent (some i) s = refl

  pub observe-push_url :
      (url parent : String) (s : Store)
      → observe r (push_url r url parent s) ≡ push_url (reference before) url parent (contents s)
  unfolding push_url
  observe-push_url url parent s = observe-push_unseen url parent (hget r url s) s

  observe-pop_taken :
      (id : String) (now : ℕ) (url : String) (o : Option UrlInfo) (s : Store)
      → observe r (pop_taken r id now url o s)
        ≡ pop_taken (reference before) id now url o (contents s)
  observe-pop_taken id now url none s = refl
  observe-pop_taken id now url (some i) s = simp (contents-sadd, contents-hset)

  observe-pop_moved :
      (id : String) (now : ℕ) (o : Option String) (s : Store)
      → observe r (pop_moved r id now o s) ≡ pop_moved (reference before) id now o (contents s)
  observe-pop_moved id now none s = refl
  observe-pop_moved id now (some url) s = observe-pop_taken id now url (hget r url s) s

  pub observe-pop_url :
      (id : String) (now : ℕ) (s : Store)
      → observe r (pop_url r id now s) ≡ pop_url (reference before) id now (contents s)
  unfolding pop_url
  observe-pop_url id now s =
      rw (lmove_reply-eq, ← contents-lmove queue (worker id) s)
        (observe-pop_moved id now _ (r.lmove queue (worker id) s))

  observe-retry_known :
      (url : String) (at : ℤ) (o : Option UrlInfo) (s : Store)
      → observe r (retry_known r url at o s) ≡ retry_known (reference before) url at o (contents s)
  observe-retry_known url at none s = refl
  observe-retry_known url at (some i) s =
      simp (contents-zadd, contents-srem, contents-lrem_first, contents-hset)

  pub observe-retry_url :
      (url : String) (at : ℤ) (s : Store)
      → observe r (retry_url r url at s) ≡ retry_url (reference before) url at (contents s)
  unfolding retry_url
  observe-retry_url url at s = observe-retry_known url at (hget r url s) s

  observe-mark_known :
      (url : String) (status : CrawlStatus) (o : Option UrlInfo) (s : Store)
      → observe r (mark_known r url status o s)
        ≡ mark_known (reference before) url status o (contents s)
  observe-mark_known url status none s = refl
  observe-mark_known url status (some i) s =
      simp (contents-srem, contents-lrem_first, contents-hset)

  pub observe-mark_processed :
      (url : String) (status : CrawlStatus) (s : Store)
      → observe r (mark_processed r url status s)
        ≡ mark_processed (reference before) url status (contents s)
  unfolding mark_processed
  observe-mark_processed url status s = observe-mark_known url status (hget r url s) s

  contents-recover_known :
      (url : String) (o : Option UrlInfo) (s : Store)
      → contents (recover_known r url o s) ≡ recover_known (reference before) url o (contents s)
  contents-recover_known url none s = simp (contents-hset, contents-lpush, contents-srem)
  contents-recover_known url (some i) s =
      simp (contents-hset, contents-lpush, contents-srem, contents-lrem_all)

  pub contents-recover :
      (url : String) (s : Store)
      → contents (recover r url s) ≡ recover (reference before) url (contents s)
  unfolding recover
  contents-recover url s = contents-recover_known url (hget r url s) s

  contents-enqueue_one :
      (url : String) (s : Store)
      → contents (enqueue_one r url s) ≡ enqueue_one (reference before) url (contents s)
  contents-enqueue_one url s = simp (contents-lpush, contents-hset)

  contents-enqueue_each :
      (urls : List String) (s : Store)
      → contents (enqueue_each r urls s) ≡ enqueue_each (reference before) urls (contents s)
  unfolding enqueue_each
  contents-enqueue_each [] s = refl
  contents-enqueue_each (url ∷ urls) s =
      rw (← contents-enqueue_one url s) (contents-enqueue_each urls (enqueue_one r url s))

  contents-enqueue_due :
      (now : ℕ) (urls : List String) (s : Store)
      → contents (enqueue_due r now urls s) ≡ enqueue_due (reference before) now urls (contents s)
  contents-enqueue_due now [] s = refl
  contents-enqueue_due now (url ∷ urls) s =
      rw (← contents-zremrangebyscore retry_queue now s)
        (contents-enqueue_each (url ∷ urls) (r.zremrangebyscore retry_queue now s))

  pub contents-enqueue_urls :
      (now : ℕ) (s : Store)
      → contents (enqueue_urls r now s) ≡ enqueue_urls (reference before) now (contents s)
  unfolding enqueue_urls
  contents-enqueue_urls now s =
      contents-enqueue_due now (zmembers_upto now ((contents s).zsets retry_queue)) s
