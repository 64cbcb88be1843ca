-- ===== src/Redis/Processing/Late.antt =====
-- A worker that finishes a URL behind the health check.
use oafse.Common.{ℕ, true, refl, suc, ◌≡◌, ◌∙◌, String, some, ap, arith, eq_iff, count}
use oafse.Storage.Model.{CrawlStatus}
use oafse.Redis.Info.{UrlInfo, queue}
use oafse.Redis.Db.{Db}
use oafse.Redis.Api.{Redis, observe, reference}
use oafse.Redis.Scripts.{Done, hget, recover, mark_processed, mark_known}
use oafse.Redis.Scripts.Simulation.{observe-mark_processed}
use oafse.Redis.Net.{ok, up}
use oafse.Redis.Processing.{Visit, is_stale, check_url, processing_mark_processed, recover_url}
use oafse.Redis.Processing.Recover.{recovered_info, hget-recover, queue-recover}
use oafse.Redis.Processing.Finish.{marked_info, mark_processed_recorded}

module _ (r : Redis) (url : String) (s : r.Store) (status : CrawlStatus) (info : UrlInfo) where
  open r use {contents, before}

  queue-mark_processed :
      (t : r.Store) (i : UrlInfo)
      → hget r url t ≡ some i
      → (contents (mark_processed r url status t).1).lists queue ≡ (contents t).lists queue
  unfolding mark_processed
  queue-mark_processed t i h =
      let same : observe r (mark_processed r url status t)
          ≡ mark_known (reference before) url status (some i) (contents t) =
        observe-mark_processed r url status t ∙ rw h in
      ap (λ (o : Done × Db). o.1.lists queue) same

  -- Where the health check has put a URL with a record back into the queue and its worker marks it
  -- after that, the mark succeeds: the record has the marked status, and the URL stands in the
  -- queue once more than before.
  pub recover_url_marked :
      hget r url s ≡ some info
      → let again = (recover_url r up url s).1 in
        let marked = processing_mark_processed r up url status again in
        (marked.0 ≡ ok tt)
        × (hget r url marked.1 ≡ some (marked_info status info))
        × (count url ((contents marked.1).lists queue) ≡ suc (count url ((contents s).lists queue)))
  unfolding recover_url processing_mark_processed
  recover_url_marked h =
      let again = recover r url s in
      let queued : UrlInfo = recovered_info (some info) in
      let held : hget r url again ≡ some queued =
        hget-recover r url url s ∙ rw h (ground (arith, eq_iff url url)) in
      let marked = mark_processed_recorded r url again status queued held in
      (
        marked.0,
        marked.1 url ∙ ground (arith, eq_iff url url),
        ap (count url) (queue-mark_processed again queued held ∙ queue-recover r url s)
            ∙ ground (arith, eq_iff url url),
      )

  -- A visit of the health check, which has read the URL from the processing index before its worker
  -- marked it, with any status: where the worker took the URL the threshold or longer
  -- ago, the visit succeeds, the record has the queued status, and the URL stands in the queue once
  -- more than before.
  pub check_url_marked :
      (threshold : ℕ) (v : Visit)
      → hget r url s ≡ some info
      → v.url ≡ url
      → v.hget_link ≡ up
      → v.recover_link ≡ up
      → is_stale v.now threshold info.take_on_at ≡ true
      → let marked = processing_mark_processed r up url status s in
        let visited = check_url r threshold v marked.1 in
        (marked.0 ≡ ok tt)
        × (visited.0 ≡ ok tt)
        × (hget r url visited.1 ≡ some (marked_info CrawlStatus.queued info))
        × (count url ((contents visited.1).lists queue)
            ≡ suc (count url ((contents s).lists queue)))
  unfolding check_url recover_url processing_mark_processed
  check_url_marked threshold v h same hget_up recover_up stale =
      let marked = mark_processed_recorded r url s status info h in
      let t = (mark_processed r url status s).1 in
      let held : hget r url t ≡ some (marked_info status info) =
        marked.1 url ∙ ground (arith, eq_iff url url) in
      rw (same, hget_up)
        (rw held (
          rw (stale, recover_up)
            (
              marked.0,
              refl,
              hget-recover r url url t ∙ rw held (ground (arith, eq_iff url url)),
              ap (count url) (queue-recover r url t)
                  ∙ ground (arith, eq_iff url url, ap (count url) (queue-mark_processed s info h)),
            )))
