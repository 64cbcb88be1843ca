-- ===== src/Redis/Processing/Lost.antt =====
-- A retry whose reply is lost.
use oafse.Common.{◌≡◌, ◌∙◌, String, some, [], ap, refl, arith, eq_iff}
use oafse.Common.Int.{ℤ, unix_milli}
use oafse.Common.Go.{transport}
use oafse.Storage.Model.{CrawlStatus}
use oafse.Redis.Info.{UrlInfo, retry_queue}
use oafse.Redis.Db.{Db}
use oafse.Redis.Counts.{zcount}
use oafse.Redis.Api.{Redis, observe, reference}
use oafse.Redis.Scripts.{Done, hget, retry_url, mark_processed, mark_known}
use oafse.Redis.Scripts.Simulation.{observe-mark_processed}
use oafse.Redis.Net.{ok, err, up, reply_lost}
use oafse.Redis.Placement.{IsPlaced}
use oafse.Redis.Processing.{processing_retry_url, processing_mark_processed}
use oafse.Redis.Processing.Finish.{
  retry_url_recorded, retried_info, marked_info, mark_processed_recorded,
}

module _ (r : Redis) (url : String) (s : r.Store) (at : ℤ) (info : UrlInfo) where
  open r use {contents, before}

  retry-mark_processed :
      (t : r.Store) (i : UrlInfo) (status : CrawlStatus)
      → hget r url t ≡ some i
      → (contents (mark_processed r url status t).1).zsets retry_queue
        ≡ (contents t).zsets retry_queue
  unfolding mark_processed
  retry-mark_processed t i status h =
      let same : observe r (mark_processed r url status t)
          ≡ mark_known (reference before) url status (some i) (contents t) =
        observe-mark_processed r url status t ∙ rw h in
      ap (λ (o : Done × Db). o.1.zsets retry_queue) same

  -- Where the reply to `RetryURL` of a URL with a record is lost and its worker then gives the URL
  -- up, the mark succeeds: the record has the give-up status and one more try, and yet the URL
  -- stands once in the retry queue, so that it is not in its place.
  pub retry_lost_given_up :
      hget r url s ≡ some info
      → let again = processing_retry_url r reply_lost url at s in
        let marked = processing_mark_processed r up url CrawlStatus.give_up again.1 in
        (again.0 ≡ err transport)
        × (marked.0 ≡ ok tt)
        × (hget r url marked.1
            ≡ some (marked_info CrawlStatus.give_up (retried_info (unix_milli at) info)))
        × (zcount url ((contents marked.1).zsets retry_queue) ≡ 1)
        × ¬ IsPlaced [] (contents marked.1) url
  unfolding processing_retry_url processing_mark_processed
  retry_lost_given_up h =
      let t = (retry_url r url (unix_milli at) s).1 in
      let i : UrlInfo = retried_info (unix_milli at) info in
      let (done, record_after, index, queued) = retry_url_recorded r url s at info h in
      let held : hget r url t ≡ some i = record_after url ∙ ground (arith, eq_iff url url) in
      let marked = mark_processed_recorded r url t CrawlStatus.give_up i held in
      let given : hget r url (mark_processed r url CrawlStatus.give_up t).1
          ≡ some (marked_info CrawlStatus.give_up i) =
        marked.1 url ∙ ground (arith, eq_iff url url) in
      let kept : zcount url
            ((contents (mark_processed r url CrawlStatus.give_up t).1).zsets retry_queue)
          ≡ 1 =
        ap (zcount url) (retry-mark_processed t i CrawlStatus.give_up held) ∙ queued in
      (refl, marked.0, given, kept, λ p. ground (arith, p.in_retry, given, kept))
