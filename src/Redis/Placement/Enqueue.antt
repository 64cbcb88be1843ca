-- ===== src/Redis/Placement/Enqueue.antt =====
-- `enqueueURLsScript` keeps every URL in its place, on the reference server.
use oafse.Common.{ℕ, ◌≡◌, String, Bool, Option, none, some, List, [], ◌∷◌, arith, eq_iff, refl}
use oafse.Redis.Info.{retry_queue, url_status, UrlInfo}
use oafse.Redis.Db.{Db, zmembers_upto, zremrangebyscore}
use oafse.Redis.Counts.{count-zmembers_upto}
use oafse.Redis.Api.{reference}
use oafse.Redis.Scripts.{enqueue_one, enqueue_each, enqueue_due, enqueue_urls}
use oafse.Redis.Placement.{IsPlaced, AllPlaced}

module _ (before : String → String → Bool) where
  enqueue_one-IsPlaced :
      (url u : String) (urls : List String) (o : Option UrlInfo) (db : Db)
      → db.hashes url_status url ≡ o
      → IsPlaced (url ∷ urls) db url
      → IsPlaced (url ∷ urls) db u
      → IsPlaced urls (enqueue_one (reference before) url db) u
  enqueue_one-IsPlaced url u urls none db e q p = absurd (ground (arith, q, eq_iff url url))
  enqueue_one-IsPlaced url u urls (some i) db e q p = record {
    in_queue = ground (arith, eq_iff url u, eq_iff url url, p, q);
    in_index = ground (arith, eq_iff url u, eq_iff url url, p, q);
    in_retry = ground (arith, eq_iff url u, eq_iff url url, p, q);
    in_worker = λ w. ground (arith, eq_iff url u, eq_iff url url, p.in_worker w, q);
  }

  enqueue_each-AllPlaced :
      (urls : List String) (db : Db)
      → ((u : String) → IsPlaced urls db u)
      → AllPlaced (enqueue_each (reference before) urls db)
  unfolding enqueue_each
  enqueue_each-AllPlaced [] db p = p
  enqueue_each-AllPlaced (url ∷ urls) db p =
      enqueue_each-AllPlaced urls (enqueue_one (reference before) url db)
        λ u. enqueue_one-IsPlaced url u urls (db.hashes url_status url) db refl (p url) (p u)

  taken-IsPlaced :
      (now : ℕ) (u : String) (db : Db)
      → IsPlaced [] db u
      → IsPlaced (zmembers_upto now (db.zsets retry_queue)) (zremrangebyscore retry_queue now db) u
  taken-IsPlaced now u db p = record {
    in_queue = p.in_queue;
    in_index = p.in_index;
    in_retry = omega (arith, p.in_retry, count-zmembers_upto u now (db.zsets retry_queue));
    in_worker = p.in_worker;
  }

  enqueue_due-AllPlaced :
      (now : ℕ) (urls : List String) (db : Db)
      → zmembers_upto now (db.zsets retry_queue) ≡ urls
      → AllPlaced db
      → AllPlaced (enqueue_due (reference before) now urls db)
  enqueue_due-AllPlaced now [] db e p = p
  enqueue_due-AllPlaced now (url ∷ urls) db e p =
      enqueue_each-AllPlaced (url ∷ urls) (zremrangebyscore retry_queue now db)
        λ u. rw e at (taken-IsPlaced now u db (p u))

  pub enqueue_urls-AllPlaced :
      (now : ℕ) (db : Db) → AllPlaced db → AllPlaced (enqueue_urls (reference before) now db)
  unfolding enqueue_urls
  enqueue_urls-AllPlaced now db p =
      enqueue_due-AllPlaced now (zmembers_upto now (db.zsets retry_queue)) db refl p
