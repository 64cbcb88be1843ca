-- ===== src/Redis/Placement/Take.antt =====
-- `popURLScript` keeps every URL in its place, on the reference server.
use oafse.Common.{ℕ, ◌≡◌, ◌<◌, String, Bool, Option, none, some, [], arith, eq_iff, count, refl}
use oafse.Storage.Model.{CrawlStatus}
use oafse.Redis.Info.{queue, processing_index, url_status, worker, UrlInfo}
use oafse.Redis.Db.{Db, get_last?, init, update, lpush, lmove}
use oafse.Redis.Counts.{contains-count, count-init}
use oafse.Redis.Api.{reference}
use oafse.Redis.Scripts.{pop_url, pop_moved, pop_taken}
use oafse.Redis.Placement.{IsPlaced, AllPlaced}

-- A URL at the right end of the queue has a record with the queued status.
pub queued_last :
    (url : String) (db : Db)
    → get_last? (db.lists queue) ≡ some url
    → AllPlaced db
    → (info : UrlInfo) × (db.hashes url_status url ≡ some info) × (info.status ≡ CrawlStatus.queued)
queued_last url db e p = go (db.hashes url_status url) refl
  where
    at_least_once : 0 < count url (db.lists queue)
    at_least_once = ground (arith, count-init url url (db.lists queue) e, eq_iff url url)

    go :
        (o : Option UrlInfo)
        → db.hashes url_status url ≡ o
        → (info : UrlInfo) × (db.hashes url_status url ≡ some info)
          × (info.status ≡ CrawlStatus.queued)
    go none h = absurd (ground (arith, (p url).in_queue, at_least_once))
    go (some i) h = (i, h, ground (arith, (p url).in_queue, at_least_once))

-- The database after LMOVE has moved `url`.
abbrev moved : String → String → Db → Db
moved id url db =
    lpush (worker id) url (record db { lists = update queue (init (db.lists queue)) db.lists })

module _ (before : String → String → Bool) where
  pop_taken-IsPlaced :
      (id url u : String) (now : ℕ) (i : UrlInfo) (db : Db)
      → get_last? (db.lists queue) ≡ some url
      → db.hashes url_status url ≡ some i
      → i.status ≡ CrawlStatus.queued
      → AllPlaced db
      → IsPlaced [] (pop_taken (reference before) id now url (some i) (moved id url db)).1 u
  pop_taken-IsPlaced id url u now i db e h st p = record {
    in_queue = ground (arith, eq_iff url u, p u, count-init u url (db.lists queue) e);
    in_index =
        ground (arith, eq_iff url u, p u, p url, contains-count url (db.sets processing_index));
    in_retry = ground (arith, eq_iff url u, p u);
    in_worker = λ w. ground (arith, eq_iff url u, eq_iff id w, (p u).in_worker w);
  }

  pop_moved-AllPlaced :
      (id : String) (now : ℕ) (o : Option String) (db : Db)
      → get_last? (db.lists queue) ≡ o
      → AllPlaced db
      → AllPlaced (pop_moved (reference before) id now o (lmove queue (worker id) db)).1
  pop_moved-AllPlaced id now none db e p = rw e p
  pop_moved-AllPlaced id now (some url) db e p =
      let (i, h, st) = queued_last url db e p in
      λ u. rw (e, h) (pop_taken-IsPlaced id url u now i db e h st p)

  pub pop_url-AllPlaced :
      (id : String) (now : ℕ) (db : Db)
      → AllPlaced db
      → AllPlaced (pop_url (reference before) id now db).1
  unfolding pop_url
  pop_url-AllPlaced id now db p = pop_moved-AllPlaced id now (get_last? (db.lists queue)) db refl p
