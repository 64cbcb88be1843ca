-- ===== src/Redis/Processing/Finish.antt =====
-- `MarkProcessed` and `RetryURL`, on both branches of their scripts.
use oafse.Common.{
  ◌+◌, ◌≡◌, String, Option, none, some, ◌∙◌, ap, arith, eq_iff, count, str_eq, if◌then◌else◌,
}
use oafse.Common.Int.{ℤ, unix_milli}
use oafse.Storage.Model.{CrawlStatus}
use oafse.Redis.Info.{url_status, UrlInfo, retry_queue, processing_index}
use oafse.Redis.Db.{Db, zremove}
use oafse.Redis.Counts.{count-remove_all, zcount, zcount-zremove, zcount-zinsert}
use oafse.Redis.Api.{Redis, reference, observe}
use oafse.Redis.Scripts.{Done, hget, mark_processed, mark_known, retry_url, retry_known}
use oafse.Redis.Scripts.Simulation.{observe-mark_processed, observe-retry_url}
use oafse.Redis.Net.{ok, err, up, Error}
use oafse.Redis.Processing.{processing_mark_processed, processing_retry_url}

-- The records that the two scripts write.
abbrev pub marked_info : CrawlStatus → UrlInfo → UrlInfo
marked_info status info = record info { status = status }

abbrev pub retried_info : ℤ → UrlInfo → UrlInfo
retried_info at info = record info { status = CrawlStatus.retry; try = info.try + 1; retry_at = at }

module _ (r : Redis) (url : String) (s : r.Store) where
  open r use {contents, before}

  observe-mark :
      (status : CrawlStatus) (o : Option UrlInfo)
      → hget r url s ≡ o
      → observe r (mark_processed r url status s)
        ≡ mark_known (reference before) url status o (contents s)
  unfolding mark_processed
  observe-mark status o h = observe-mark_processed r url status s ∙ rw h

  observe-retry :
      (at : ℤ) (o : Option UrlInfo)
      → hget r url s ≡ o
      → observe r (retry_url r url at s) ≡ retry_known (reference before) url at o (contents s)
  unfolding retry_url
  observe-retry at o h = observe-retry_url r url at s ∙ rw h

  -- `MarkProcessed` and `RetryURL` of a URL with no status record return the script's error, and
  -- nothing that Redis shows changes.
  pub finish_unrecorded :
      (status : CrawlStatus) (at : ℤ)
      → hget r url s ≡ none
      → ((processing_mark_processed r up url status s).0 ≡ err Error.script)
        × (contents (processing_mark_processed r up url status s).1 ≡ contents s)
        × ((processing_retry_url r up url at s).0 ≡ err Error.script)
        × (contents (processing_retry_url r up url at s).1 ≡ contents s)
  unfolding processing_mark_processed processing_retry_url
  finish_unrecorded status at h = (
    rw (ap (λ (o : Done × Db). o.0) (observe-mark status none h)),
    ap (λ (o : Done × Db). o.1) (observe-mark status none h),
    rw (ap (λ (o : Done × Db). o.0) (observe-retry (unix_milli at) none h)),
    ap (λ (o : Done × Db). o.1) (observe-retry (unix_milli at) none h),
  )

  -- `MarkProcessed` of a URL with a record succeeds: the record has the new status and its other
  -- fields, no other record changes, and the URL is in the processing index no more.
  pub mark_processed_recorded :
      (status : CrawlStatus) (info : UrlInfo)
      → hget r url s ≡ some info
      → ((processing_mark_processed r up url status s).0 ≡ ok tt)
        × ((u : String)
            → hget r u (processing_mark_processed r up url status s).1
              ≡ (if str_eq url u then some (marked_info status info) else hget r u s))
        × (count url
              ((contents (processing_mark_processed r up url status s).1).sets processing_index)
            ≡ 0)
  unfolding processing_mark_processed
  mark_processed_recorded status info h =
      let same = observe-mark status (some info) h in
      (
        rw (ap (λ (o : Done × Db). o.0) same),
        λ u. ap (λ (o : Done × Db). o.1.hashes url_status u) same,
        ap (λ (o : Done × Db). count url (o.1.sets processing_index)) same
            ∙ ground (
              arith,
              count-remove_all url url ((contents s).sets processing_index),
              eq_iff url url,
            ),
      )

  -- `RetryURL` of a URL with a record succeeds: the record has the retry status, one more try and
  -- the time of the retry in milliseconds, no other record changes, the URL is in the processing
  -- index no more, and it stands once in the retry queue.
  pub retry_url_recorded :
      (at : ℤ) (info : UrlInfo)
      → hget r url s ≡ some info
      → ((processing_retry_url r up url at s).0 ≡ ok tt)
        × ((u : String)
            → hget r u (processing_retry_url r up url at s).1
              ≡ (if str_eq url u then some (retried_info (unix_milli at) info) else hget r u s))
        × (count url ((contents (processing_retry_url r up url at s).1).sets processing_index) ≡ 0)
        × (zcount url ((contents (processing_retry_url r up url at s).1).zsets retry_queue) ≡ 1)
  unfolding processing_retry_url
  retry_url_recorded at info h =
      let same = observe-retry (unix_milli at) (some info) h in
      (
        rw (ap (λ (o : Done × Db). o.0) same),
        λ u. ap (λ (o : Done × Db). o.1.hashes url_status u) same,
        ap (λ (o : Done × Db). count url (o.1.sets processing_index)) same
            ∙ ground (
              arith,
              count-remove_all url url ((contents s).sets processing_index),
              eq_iff url url,
            ),
        ap (λ (o : Done × Db). zcount url (o.1.zsets retry_queue)) same
            ∙ ground (
              arith,
              zcount-zremove url url ((contents s).zsets retry_queue),
              eq_iff url url,
              zcount-zinsert before url (record { member = url; score = unix_milli at })
                  (zremove url ((contents s).zsets retry_queue)),
            ),
      )
