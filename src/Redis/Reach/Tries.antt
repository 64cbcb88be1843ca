-- ===== src/Redis/Reach/Tries.antt =====
-- The tries of a record, and what each script makes of them on the reference server.
use oafse.Common.{
  ℕ, ◌+◌, ◌≡◌, String, Bool, Option, none, some, List, [], ◌∷◌, refl, arith, eq_iff, str_eq,
  if◌then◌else◌,
}
use oafse.Common.Int.{ℤ}
use oafse.Storage.Model.{CrawlStatus}
use oafse.Redis.Info.{UrlInfo, url_status, queue, worker, retry_queue}
use oafse.Redis.Db.{Db, move_last, zremrangebyscore}
use oafse.Redis.Api.{reference}
use oafse.Redis.Scripts.{
  push_unseen, pop_taken, pop_moved, retry_known, mark_known, enqueue_each, enqueue_one,
  enqueue_due,
}

-- The tries that a record counts.
abbrev pub tries_of : Option UrlInfo → Option ℕ
tries_of none = none
tries_of (some info) = some info.try

abbrev pub tries_in : String → Db → Option ℕ
tries_in u db = tries_of (db.hashes url_status u)

module _ (before : String → String → Bool) (u : String) (n : ℕ) where
  pub push-tries :
      (url parent : String) (o : Option UrlInfo) (db : Db)
      → db.hashes url_status url ≡ o
      → tries_in u db ≡ some n
      → tries_in u (push_unseen (reference before) url parent o db).1 ≡ some n
  push-tries url parent none db e h = ground (arith, e, h, eq_iff url u)
  push-tries url parent (some i) db e h = h

  pop_taken-tries :
      (id : String) (now : ℕ) (url : String) (o : Option UrlInfo) (db : Db)
      → db.hashes url_status url ≡ o
      → tries_in u db ≡ some n
      → tries_in u (pop_taken (reference before) id now url o db).1 ≡ some n
  pop_taken-tries id now url none db e h = h
  pop_taken-tries id now url (some i) db e h = ground (arith, e, h, eq_iff url u)

  pub pop_moved-tries :
      (id : String) (now : ℕ) (o : Option String) (db : Db)
      → tries_in u db ≡ some n
      → tries_in u (pop_moved (reference before) id now o (move_last queue (worker id) o db)).1
        ≡ some n
  pop_moved-tries id now none db h = h
  pop_moved-tries id now (some url) db h =
      pop_taken-tries id now url (db.hashes url_status url)
        (move_last queue (worker id) (some url) db) refl h

  pub retry-tries :
      (url : String) (at : ℤ) (o : Option UrlInfo) (db : Db)
      → db.hashes url_status url ≡ o
      → tries_in u db ≡ some n
      → tries_in u (retry_known (reference before) url at o db).1
        ≡ some ((if str_eq url u then 1 else 0) + n)
  retry-tries url at none db e h = ground (arith, e, h, eq_iff url u)
  retry-tries url at (some i) db e h = ground (arith, e, h, eq_iff url u)

  pub mark-tries :
      (url : String) (status : CrawlStatus) (o : Option UrlInfo) (db : Db)
      → db.hashes url_status url ≡ o
      → tries_in u db ≡ some n
      → tries_in u (mark_known (reference before) url status o db).1 ≡ some n
  mark-tries url status none db e h = h
  mark-tries url status (some i) db e h = ground (arith, e, h, eq_iff url u)

  enqueue_one-tries :
      (url : String) (o : Option UrlInfo) (db : Db)
      → db.hashes url_status url ≡ o
      → tries_in u db ≡ some n
      → tries_in u (enqueue_one (reference before) url db) ≡ some n
  enqueue_one-tries url none db e h = rw e (ground (arith, e, h, eq_iff url u))
  enqueue_one-tries url (some i) db e h = rw e (ground (arith, e, h, eq_iff url u))

  enqueue_each-tries :
      (urls : List String) (db : Db)
      → tries_in u db ≡ some n
      → tries_in u (enqueue_each (reference before) urls db) ≡ some n
  unfolding enqueue_each
  enqueue_each-tries [] db h = h
  enqueue_each-tries (url ∷ urls) db h =
      enqueue_each-tries urls (enqueue_one (reference before) url db)
        (enqueue_one-tries url (db.hashes url_status url) db refl h)

  pub enqueue_due-tries :
      (now : ℕ) (urls : List String) (db : Db)
      → tries_in u db ≡ some n
      → tries_in u (enqueue_due (reference before) now urls db) ≡ some n
  enqueue_due-tries now [] db h = h
  enqueue_due-tries now (url ∷ urls) db h =
      enqueue_each-tries (url ∷ urls) (zremrangebyscore retry_queue now db) h
