-- ===== src/Redis/Frontier/Refines.antt =====
-- Each script does what its call may do.
use oafse.Common.{
  ℕ, ◌<◌, ◌≡◌, ◌≢◌, ◌∙◌, inl, inr, String, Bool, true, Option, none, some, List, [], ◌∷◌,
  if◌then◌else◌, str_eq, eq_iff, ap, sym, subst, refl, arith, count, ltb,
}
use oafse.Common.Int.{ℤ}
use oafse.Storage.Model.{CrawlStatus}
use oafse.Redis.Info.{UrlInfo, url_status, queue, retry_queue, worker}
use oafse.Redis.Db.{Db, get_last?, lmove, zmembers_upto, zremrangebyscore}
use oafse.Redis.Counts.{count-zmembers_upto}
use oafse.Redis.Api.{Redis, reference}
use oafse.Redis.Scripts
use oafse.Redis.Scripts.{
  hget, push_unseen, pop_taken, pop_moved, pop_url, retry_known, mark_known, recover_known,
  enqueue_each, enqueue_one, enqueue_due, enqueue_urls, push_url, retry_url, mark_processed,
}
use oafse.Redis.Scripts.Simulation.{
  observe-push_url, observe-pop_url, observe-retry_url, observe-mark_processed, contents-recover,
  contents-enqueue_urls,
}
use oafse.Redis.Placement.{IsPlaced, AllPlaced, status_of}
use oafse.Redis.Placement.Take.{queued_last}
use oafse.Redis.Reach.{Step, pushes, takes, retries, marks, recovers, enqueues}
use oafse.Redis.Frontier.{
  Frontier, push, take, retry, mark, recover, enqueue, Allows, recorded_status, frontier, call_of,
}

-- The frontier that a database shows.
abbrev pub shown : Db → Frontier
shown db u = recorded_status (db.hashes url_status u)

last-cons : (x : String) (xs : List String) → get_last? (x ∷ xs) ≢ none
last-cons x [] h = absurd (cc)
last-cons x (y ∷ ys) h = last-cons y ys h

count-last_none : (u : String) (xs : List String) → get_last? xs ≡ none → count u xs ≡ 0
count-last_none u [] h = refl
count-last_none u (x ∷ xs) h = absurd (last-cons x xs h)

not-queued :
    (u : String) (db : Db)
    → get_last? (db.lists queue) ≡ none
    → AllPlaced db
    → shown db u ≢ some CrawlStatus.queued
not-queued u db e p h = ground (arith, h, (p u).in_queue, count-last_none u (db.lists queue) e)

module _ (before : String → String → Bool) where
  push-Allows :
      (url parent : String) (o : Option UrlInfo) (db : Db)
      → db.hashes url_status url ≡ o
      → Allows (push url) (shown db) (shown (push_unseen (reference before) url parent o db).1)
  push-Allows url parent none db e u = ground (arith, e, eq_iff url u)
  push-Allows url parent (some i) db e u = ground (arith, e, eq_iff url u)

  pop_moved-Allows :
      (id : String) (now : ℕ) (o : Option String) (db : Db)
      → get_last? (db.lists queue) ≡ o
      → AllPlaced db
      → Allows take
          (shown db)
          (shown (pop_moved (reference before) id now o (lmove queue (worker id) db)).1)
  pop_moved-Allows id now none db e p = inl (λ u. not-queued u db e p, λ u. rw e refl)
  pop_moved-Allows id now (some url) db e p =
      let (i, h, st) = queued_last url db e p in
      inr (url, ground (arith, h, st), λ u. rw (e, h) (ground (arith, eq_iff url u)))

  retry-Allows :
      (url : String) (at : ℤ) (o : Option UrlInfo) (db : Db)
      → db.hashes url_status url ≡ o
      → status_of o ≡ CrawlStatus.processing
      → Allows (retry url) (shown db) (shown (retry_known (reference before) url at o db).1)
  retry-Allows url at none db e st = absurd (cc)
  retry-Allows url at (some i) db e st = λ u. ground (arith, eq_iff url u)

  mark-Allows :
      (url : String) (status : CrawlStatus) (o : Option UrlInfo) (db : Db)
      → db.hashes url_status url ≡ o
      → status_of o ≡ CrawlStatus.processing
      → Allows
          (mark url status)
          (shown db)
          (shown (mark_known (reference before) url status o db).1)
  mark-Allows url status none db e st = absurd (cc)
  mark-Allows url status (some i) db e st = λ u. ground (arith, eq_iff url u)

  recover-Allows :
      (url : String) (o : Option UrlInfo) (db : Db)
      → db.hashes url_status url ≡ o
      → status_of o ≡ CrawlStatus.processing
      → Allows (recover url) (shown db) (shown (recover_known (reference before) url o db))
  recover-Allows url none db e st = absurd (cc)
  recover-Allows url (some i) db e st = λ u. ground (arith, eq_iff url u)

  shown-enqueue_one :
      (url u : String) (o : Option UrlInfo) (db : Db)
      → db.hashes url_status url ≡ o
      → shown (enqueue_one (reference before) url db) u
        ≡ (if str_eq url u then some CrawlStatus.queued else shown db u)
  shown-enqueue_one url u none db e = rw e (ground (arith, eq_iff url u))
  shown-enqueue_one url u (some i) db e = rw e (ground (arith, eq_iff url u))

  shown-enqueue_each :
      (urls : List String) (u : String) (db : Db)
      → shown (enqueue_each (reference before) urls db) u
        ≡ (if ltb 0 (count u urls) then some CrawlStatus.queued else shown db u)
  unfolding enqueue_each
  shown-enqueue_each [] u db = ground arith
  shown-enqueue_each (url ∷ urls) u db =
      shown-enqueue_each urls u (enqueue_one (reference before) url db)
      ∙ ground (arith, shown-enqueue_one url u (db.hashes url_status url) db refl)

  pub due-retry :
      (now : ℕ) (urls : List String) (db : Db) (u : String)
      → zmembers_upto now (db.zsets retry_queue) ≡ urls
      → IsPlaced [] db u
      → ltb 0 (count u urls) ≡ true
      → shown db u ≡ some CrawlStatus.retry
  due-retry now urls db u e p h =
      let some_due : 0 < count u (zmembers_upto now (db.zsets retry_queue)) = rw e (ground arith) in
      ground (arith, p.in_retry, some_due, count-zmembers_upto u now (db.zsets retry_queue))

  enqueue_due-shown :
      (now : ℕ) (urls : List String) (db : Db) (u : String)
      → shown (enqueue_due (reference before) now urls db) u
        ≡ (if ltb 0 (count u urls) then some CrawlStatus.queued else shown db u)
  enqueue_due-shown now [] db u = ground arith
  enqueue_due-shown now (url ∷ urls) db u =
      shown-enqueue_each (url ∷ urls) u (zremrangebyscore retry_queue now db)

  enqueue-Allows :
      (now : ℕ) (urls : List String) (db : Db)
      → zmembers_upto now (db.zsets retry_queue) ≡ urls
      → AllPlaced db
      → Allows enqueue (shown db) (shown (enqueue_due (reference before) now urls db))
  enqueue-Allows now urls db e p = (
    λ u. ltb 0 (count u urls),
    λ u h. due-retry now urls db u e (p u) h,
    enqueue_due-shown now urls db,
  )

-- Each step from a store in which every URL has its place, where RetryURL, MarkProcessed and
-- RecoverURL run for a URL in processing only and MarkProcessed with a final status only, does to
-- the statuses exactly what the frontier allows: a push queues its URL if it is new, and changes
-- nothing otherwise; a take puts one queued URL into processing, or, only if there is none, changes
-- nothing; a retry, a mark and a recovery give their URL the status of a retry, the status of the
-- mark, and the queued status; an enqueueing makes URLs queued that waited for a retry; and none of
-- them changes the status of any other URL.
pub Step-Allows :
    (r : Redis) {s t : r.Store} (step : Step r s t)
    → AllPlaced (r.contents s)
    → Allows (call_of r step) (frontier r s) (frontier r t)
unfolding push_url pop_url retry_url mark_processed Scripts.recover enqueue_urls
Step-Allows r {s} (pushes url parent) p =
    subst (λ db. Allows (push url) (frontier r s) (shown db))
      (sym (ap (λ o. o.1) (observe-push_url r url parent s)))
      (push-Allows r.before url parent (hget r url s) (r.contents s) refl)
Step-Allows r {s} (takes id now) p =
    subst (λ db. Allows take (frontier r s) (shown db))
      (sym (ap (λ o. o.1) (observe-pop_url r id now s)))
      (pop_moved-Allows r.before id now (get_last? ((r.contents s).lists queue)) (r.contents s) refl
        p)
Step-Allows r {s} (retries url at st) p =
    subst (λ db. Allows (retry url) (frontier r s) (shown db))
      (sym (ap (λ o. o.1) (observe-retry_url r url at s)))
      (retry-Allows r.before url at (hget r url s) (r.contents s) refl st)
Step-Allows r {s} (marks url status st fin) p =
    subst (λ db. Allows (mark url status) (frontier r s) (shown db))
      (sym (ap (λ o. o.1) (observe-mark_processed r url status s)))
      (mark-Allows r.before url status (hget r url s) (r.contents s) refl st)
Step-Allows r {s} (recovers url st) p =
    subst (λ db. Allows (recover url) (frontier r s) (shown db)) (sym (contents-recover r url s))
      (recover-Allows r.before url (hget r url s) (r.contents s) refl st)
Step-Allows r {s} (enqueues now) p =
    subst (λ db. Allows enqueue (frontier r s) (shown db)) (sym (contents-enqueue_urls r now s))
      (enqueue-Allows r.before now (zmembers_upto now ((r.contents s).zsets retry_queue))
        (r.contents s) refl p)
