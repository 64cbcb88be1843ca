-- ===== src/Redis/Placement/Steps.antt =====
-- Each script keeps every URL in its place, on the reference server.
use oafse.Common.{◌≡◌, String, Bool, Option, none, some, [], arith, eq_iff, refl}
use oafse.Common.Int.{ℤ}
use oafse.Storage.Model.{CrawlStatus}
use oafse.Redis.Info.{retry_queue, processing_index, url_status, worker, UrlInfo}
use oafse.Redis.Db.{Db, zremove}
use oafse.Redis.Counts.{count-remove_all, count-remove_first, zcount-zremove, zcount-zinsert}
use oafse.Redis.Api.{reference}
use oafse.Redis.Scripts.{
  push_url, push_unseen, retry_url, retry_known, mark_processed, mark_known, recover, recover_known,
}
use oafse.Redis.Placement.{IsPlaced, AllPlaced, IsFinal, status_of}

module _ (before : String → String → Bool) where
  push_unseen-IsPlaced :
      (url parent u : String) (o : Option UrlInfo) (db : Db)
      → db.hashes url_status url ≡ o
      → IsPlaced [] db u
      → IsPlaced [] (push_unseen (reference before) url parent o db).1 u
  push_unseen-IsPlaced url parent u none db e p = record {
    in_queue = ground (arith, eq_iff url u);
    in_index = ground (arith, eq_iff url u);
    in_retry = ground (arith, eq_iff url u);
    in_worker = λ w. ground (arith, eq_iff url u, p.in_worker w);
  }
  push_unseen-IsPlaced url parent u (some i) db e p = p

  pub push_url-AllPlaced :
      (url parent : String) (db : Db)
      → AllPlaced db
      → AllPlaced (push_url (reference before) url parent db).1
  unfolding push_url
  push_url-AllPlaced url parent db p u =
      push_unseen-IsPlaced url parent u (db.hashes url_status url) db refl (p u)

  retry_known-IsPlaced :
      (url u : String) (at : ℤ) (o : Option UrlInfo) (db : Db)
      → db.hashes url_status url ≡ o
      → status_of o ≡ CrawlStatus.processing
      → AllPlaced db
      → IsPlaced [] (retry_known (reference before) url at o db).1 u
  retry_known-IsPlaced url u at none db e st p = p u
  retry_known-IsPlaced url u at (some i) db e st p = record {
    in_queue = ground (arith, eq_iff url u, p u);
    in_index = ground (arith, eq_iff url u, p u, count-remove_all url u (db.sets processing_index));
    in_retry = ground (
      arith,
      eq_iff url u,
      p u,
      zcount-zremove url u (db.zsets retry_queue),
      zcount-zinsert before u (record { member = url; score = at })
          (zremove url (db.zsets retry_queue)),
    );
    in_worker = λ w. ground (
      arith,
      eq_iff url u,
      eq_iff i.worker_id w,
      (p u).in_worker w,
      count-remove_first url u (db.lists (worker i.worker_id)),
      count-remove_first url u (db.lists (worker w)),
    );
  }

  pub retry_url-AllPlaced :
      (url : String) (at : ℤ) (db : Db)
      → status_of (db.hashes url_status url) ≡ CrawlStatus.processing
      → AllPlaced db
      → AllPlaced (retry_url (reference before) url at db).1
  unfolding retry_url
  retry_url-AllPlaced url at db st p u =
      retry_known-IsPlaced url u at (db.hashes url_status url) db refl st p

  mark_known-IsPlaced :
      (url u : String) (status : CrawlStatus) (o : Option UrlInfo) (db : Db)
      → db.hashes url_status url ≡ o
      → status_of o ≡ CrawlStatus.processing
      → IsFinal status
      → AllPlaced db
      → IsPlaced [] (mark_known (reference before) url status o db).1 u
  mark_known-IsPlaced url u status none db e st fin p = p u
  mark_known-IsPlaced url u status (some i) db e st fin p = record {
    in_queue = ground (arith, eq_iff url u, p u);
    in_index = ground (arith, eq_iff url u, p u, count-remove_all url u (db.sets processing_index));
    in_retry = ground (arith, eq_iff url u, p u);
    in_worker = λ w. ground (
      arith,
      eq_iff url u,
      eq_iff i.worker_id w,
      (p u).in_worker w,
      count-remove_first url u (db.lists (worker i.worker_id)),
      count-remove_first url u (db.lists (worker w)),
    );
  }

  pub mark_processed-AllPlaced :
      (url : String) (status : CrawlStatus) (db : Db)
      → status_of (db.hashes url_status url) ≡ CrawlStatus.processing
      → IsFinal status
      → AllPlaced db
      → AllPlaced (mark_processed (reference before) url status db).1
  unfolding mark_processed
  mark_processed-AllPlaced url status db st fin p u =
      mark_known-IsPlaced url u status (db.hashes url_status url) db refl st fin p

  recover_known-IsPlaced :
      (url u : String) (o : Option UrlInfo) (db : Db)
      → db.hashes url_status url ≡ o
      → status_of o ≡ CrawlStatus.processing
      → AllPlaced db
      → IsPlaced [] (recover_known (reference before) url o db) u
  recover_known-IsPlaced url u none db e st p = absurd (cc)
  recover_known-IsPlaced url u (some i) db e st p = record {
    in_queue = ground (arith, eq_iff url u, p u);
    in_index = ground (arith, eq_iff url u, p u, count-remove_all url u (db.sets processing_index));
    in_retry = ground (arith, eq_iff url u, p u);
    in_worker = λ w. ground (
      arith,
      eq_iff url u,
      eq_iff i.worker_id w,
      (p u).in_worker w,
      count-remove_all url u (db.lists (worker i.worker_id)),
      count-remove_all url u (db.lists (worker w)),
    );
  }

  pub recover-AllPlaced :
      (url : String) (db : Db)
      → status_of (db.hashes url_status url) ≡ CrawlStatus.processing
      → AllPlaced db
      → AllPlaced (recover (reference before) url db)
  unfolding recover
  recover-AllPlaced url db st p u =
      recover_known-IsPlaced url u (db.hashes url_status url) db refl st p
