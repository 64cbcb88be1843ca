-- ===== src/Redis/Reach/Earliest.antt =====
-- The retry queue stays sorted, so its head is the retry that `GetCrawlMetadata` looks for.
use oafse.Common.{ℕ, ◌≡◌, String, Bool, Option, none, some, List, [], ◌∷◌, ap, sym, subst, arith}
use oafse.Common.Int.{ℤ, from_unix_milli}
use oafse.Common.Go.{ok}
use oafse.Storage.Model.{CrawlStatus, CrawlMetadata}
use oafse.Redis.Info.{UrlInfo, queue, retry_queue, worker}
use oafse.Redis.Db.{Db, Scored, get_last?, lmove, move_last, zmembers_upto}
use oafse.Redis.Api.{Redis, reference}
use oafse.Redis.Net.{up}
use oafse.Redis.Scripts.{
  hget, push_unseen, push_url, pop_taken, pop_moved, pop_url, retry_known, retry_url, mark_known,
  mark_processed, recover_known, recover, enqueue_each, enqueue_one, enqueue_due, enqueue_urls,
  crawl_metadata, earliest_score,
}
use oafse.Redis.Scripts.Simulation.{
  observe-push_url, observe-pop_url, observe-retry_url, observe-mark_processed, contents-recover,
  contents-enqueue_urls,
}
use oafse.Redis.Sorted.{
  AllAtLeast, IsSorted, IsSorted-zinsert, IsSorted-zremove, IsSorted-zremove_upto,
}
use oafse.Redis.Reach.{Step, Reach, pushes, takes, retries, marks, recovers, enqueues, here, next}
use oafse.Redis.UrlDs.{get_crawl_metadata, earliest_time}

abbrev pub HasSortedRetries : Db → Type 0
HasSortedRetries db = IsSorted (db.zsets retry_queue)

module _ (before : String → String → Bool) where
  push_unseen-Sorted :
      (url parent : String) (o : Option UrlInfo) (db : Db)
      → HasSortedRetries db
      → HasSortedRetries (push_unseen (reference before) url parent o db).1
  push_unseen-Sorted url parent none db h = h
  push_unseen-Sorted url parent (some i) db h = h

  move_last-Sorted :
      (id : String) (o : Option String) (db : Db)
      → HasSortedRetries db
      → HasSortedRetries (move_last queue (worker id) o db)
  move_last-Sorted id none db h = h
  move_last-Sorted id (some x) db h = h

  pop_taken-Sorted :
      (id : String) (now : ℕ) (url : String) (o : Option UrlInfo) (db : Db)
      → HasSortedRetries db
      → HasSortedRetries (pop_taken (reference before) id now url o db).1
  pop_taken-Sorted id now url none db h = h
  pop_taken-Sorted id now url (some i) db h = h

  pop_moved-Sorted :
      (id : String) (now : ℕ) (o : Option String) (db : Db)
      → HasSortedRetries db
      → HasSortedRetries (pop_moved (reference before) id now o db).1
  pop_moved-Sorted id now none db h = h
  pop_moved-Sorted id now (some url) db h =
      pop_taken-Sorted id now url (hget (reference before) url db) db h

  pop_url-Sorted :
      (id : String) (now : ℕ) (db : Db)
      → HasSortedRetries db
      → HasSortedRetries (pop_url (reference before) id now db).1
  unfolding pop_url
  pop_url-Sorted id now db h =
      pop_moved-Sorted id now (get_last? (db.lists queue)) (lmove queue (worker id) db)
        (move_last-Sorted id (get_last? (db.lists queue)) db h)

  retry_known-Sorted :
      (url : String) (at : ℤ) (o : Option UrlInfo) (db : Db)
      → HasSortedRetries db
      → HasSortedRetries (retry_known (reference before) url at o db).1
  retry_known-Sorted url at none db h = h
  retry_known-Sorted url at (some i) db h =
      IsSorted-zinsert before (record { member = url; score = at }) _ (IsSorted-zremove url _ h)

  mark_known-Sorted :
      (url : String) (status : CrawlStatus) (o : Option UrlInfo) (db : Db)
      → HasSortedRetries db
      → HasSortedRetries (mark_known (reference before) url status o db).1
  mark_known-Sorted url status none db h = h
  mark_known-Sorted url status (some i) db h = h

  recover_known-Sorted :
      (url : String) (o : Option UrlInfo) (db : Db)
      → HasSortedRetries db
      → HasSortedRetries (recover_known (reference before) url o db)
  recover_known-Sorted url none db h = h
  recover_known-Sorted url (some i) db h = h

  enqueue_each-Sorted :
      (urls : List String) (db : Db)
      → HasSortedRetries db
      → HasSortedRetries (enqueue_each (reference before) urls db)
  unfolding enqueue_each
  enqueue_each-Sorted [] db h = h
  enqueue_each-Sorted (url ∷ urls) db h =
      enqueue_each-Sorted urls (enqueue_one (reference before) url db) h

  enqueue_due-Sorted :
      (now : ℕ) (urls : List String) (db : Db)
      → HasSortedRetries db
      → HasSortedRetries (enqueue_due (reference before) now urls db)
  enqueue_due-Sorted now [] db h = h
  enqueue_due-Sorted now (url ∷ urls) db h =
      enqueue_each-Sorted (url ∷ urls) _ (IsSorted-zremove_upto now _ h)

module _ (r : Redis) where
  open r use {contents, before}

  Step-Sorted :
      {s t : r.Store} → Step r s t → HasSortedRetries (contents s) → HasSortedRetries (contents t)
  unfolding push_url retry_url mark_processed recover enqueue_urls
  Step-Sorted {s} (pushes url parent) h =
      subst HasSortedRetries (sym (ap (λ o. o.1) (observe-push_url r url parent s)))
        (push_unseen-Sorted before url parent _ (contents s) h)
  Step-Sorted {s} (takes id now) h =
      subst HasSortedRetries (sym (ap (λ o. o.1) (observe-pop_url r id now s)))
        (pop_url-Sorted before id now (contents s) h)
  Step-Sorted {s} (retries url at st) h =
      subst HasSortedRetries (sym (ap (λ o. o.1) (observe-retry_url r url at s)))
        (retry_known-Sorted before url at _ (contents s) h)
  Step-Sorted {s} (marks url status st fin) h =
      subst HasSortedRetries (sym (ap (λ o. o.1) (observe-mark_processed r url status s)))
        (mark_known-Sorted before url status _ (contents s) h)
  Step-Sorted {s} (recovers url st) h =
      subst HasSortedRetries (sym (contents-recover r url s))
        (recover_known-Sorted before url _ (contents s) h)
  Step-Sorted {s} (enqueues now) h = subst HasSortedRetries (sym (contents-enqueue_urls r now s)) (
      enqueue_due-Sorted before now (zmembers_upto now ((contents s).zsets retry_queue))
        (contents s) h)

  Reach-Sorted :
      {s t : r.Store} → HasSortedRetries (contents s) → Reach r s t → HasSortedRetries (contents t)
  Reach-Sorted h here = h
  Reach-Sorted h (next path step) = Step-Sorted step (Reach-Sorted h path)

  -- What the metadata say of a retry queue.
  abbrev pub Earliest : CrawlMetadata → List Scored → Type 0
  Earliest md [] = md.earliest_retry ≡ none
  Earliest md (e ∷ es) =
      (md.earliest_retry ≡ some (from_unix_milli e.score)) × AllAtLeast e.score es

  Earliest-head :
      (md : CrawlMetadata) (n : ℕ) (zs : List Scored)
      → IsSorted zs
      → ok (record { unprocessed_count = n; earliest_retry = earliest_time (earliest_score zs) })
        ≡ ok md
      → Earliest md zs
  Earliest-head md n [] h e = ground arith
  Earliest-head md n (z ∷ zs) h e = (ground arith, h.0)

  -- From a store whose retry queue is sorted, and behind any sequence of scripts, with RetryURL,
  -- MarkProcessed and RecoverURL of URLs in processing, `GetCrawlMetadata` returns the time of an
  -- entry of the retry queue that no other entry comes before, and no time if that queue is empty.
  pub get_crawl_metadata-Earliest :
      {s t : r.Store} (md : CrawlMetadata)
      → HasSortedRetries (contents s)
      → Reach r s t
      → (get_crawl_metadata r up t).0 ≡ ok md
      → Earliest md ((contents t).zsets retry_queue)
  unfolding get_crawl_metadata crawl_metadata
  get_crawl_metadata-Earliest {t = t} md h path e =
      Earliest-head md (crawl_metadata r t).0 ((contents t).zsets retry_queue) (Reach-Sorted h path)
        e
