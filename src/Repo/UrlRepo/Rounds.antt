-- ===== src/Repo/UrlRepo/Rounds.antt =====
-- A URL that a worker takes and then marks, by whether its stored text is normal.
use oafse.Common.{
  ℕ, ◌≡◌, ◌∙◌, String, none, some, List, [], ◌∷◌, ◌++◌, ap, refl, arith, str_eq, eq_iff,
  if◌then◌else◌, count,
}
use oafse.Common.Int.{pos}
use oafse.Common.Go.{GoResult, ok, err, Error, and_then_ok}
use oafse.Domain.Status
use oafse.Domain.Url.{GoUrl, Url, NetUrl, normalize}
use oafse.Storage.Model.{CrawlStatus, UrlCache}
use oafse.Storage.Mapper.{to_domain_url, to_storage_crawl_status}
use oafse.Redis.Info.{UrlInfo, url_status, queue, processing_index}
use oafse.Redis.Db.{Db}
use oafse.Redis.Api.{Redis}
use oafse.Redis.Scripts.{hget, enqueue_urls}
use oafse.Redis.Net.{up}
use oafse.Redis.Queue.{queue_take_on}
use oafse.Redis.Queue.Take.{queue_take_on_oldest}
use oafse.Redis.Processing.Finish.{mark_processed_recorded, finish_unrecorded, marked_info}
use oafse.Redis.UrlDs.{take_on, enqueue}
use oafse.Repo.UrlRepo.{repo_take_on, repo_mark_processed}

-- The record of a URL that a worker holds.
abbrev pub held_info : String → ℕ → UrlInfo → UrlInfo
held_info id now info = record info {
  status = CrawlStatus.processing;
  worker_id = id;
  take_on_at = pos now;
}

-- The URL that `ToDomainURL` makes of a stored text that parses as `g`.
abbrev pub domain_form : NetUrl → GoUrl → String → UrlInfo → Url
domain_form net g parent info = record { url = normalize net g; parent = parent; try = info.try }

module _ (net : NetUrl) (r : Redis) (id : String) (now later : ℕ) (s : r.Store) (rest : List String)
    (url parent : String) (info : UrlInfo) (g : GoUrl) where
  open r use {contents}

  -- Behind the due retries the queue ends in `url`, whose text parses and whose record has a parent.
  abbrev pub IsNext : Type 0
  IsNext =
      ((contents (enqueue_urls r now s)).lists queue ≡ rest ++ url ∷ [])
      × (hget r url (enqueue_urls r now s) ≡ some info)
      × (info.parent ≡ some parent)
      × (net.parse url ≡ some g)

  repo_take_on_next :
      IsNext
      → ((repo_take_on net r up up id now later s).0 ≡ ok (domain_form net g parent info))
        × ((u : String)
            → hget r u (repo_take_on net r up up id now later s).1 ≡ (
                if str_eq url u
                then some (held_info id later info)
                else hget r u (enqueue_urls r now s)))
  unfolding repo_take_on take_on enqueue
  repo_take_on_next (e, h, p, parsed) =
      let taken =
        queue_take_on_oldest r id later (enqueue_urls r now s) rest url parent info e h p in
      let found : UrlCache = record { url = url; parent = parent; try = info.try } in
      let stepped =
        and_then_ok (queue_take_on r up id later (enqueue_urls r now s)) found
          (λ u s'. (to_domain_url net u, s')) taken.0 in
      (
        ap (λ (o : GoResult Url × r.Store). o.0) stepped ∙ rw parsed refl,
        λ u. ap (λ (o : GoResult Url × r.Store). hget r u o.1) stepped ∙ taken.3 u,
      )

  -- Let the queue, behind the due retries, end in `url`, with a record that has a parent. If the
  -- URL's normal form prints as that same text, then `MarkProcessed` of what `TakeOn` returned
  -- succeeds: the record of `url` has the new status, and `url` leaves the processing index.
  pub repo_take_on_marked :
      (status : Status.CrawlStatus)
      → IsNext
      → net.string (normalize net g) ≡ url
      → let took = repo_take_on net r up up id now later s in
        let marked = repo_mark_processed net r up (net.string (normalize net g)) status took.1 in
        (took.0 ≡ ok (domain_form net g parent info))
        × (marked.0 ≡ ok tt)
        × (hget r url marked.1
            ≡ some (marked_info (to_storage_crawl_status status) (held_info id later info)))
        × (count url ((contents marked.1).sets processing_index) ≡ 0)
  unfolding repo_mark_processed
  repo_take_on_marked status next normal =
      let took = repo_take_on_next next in
      let held = took.1 url ∙ ground (arith, eq_iff url url) in
      let marked =
        mark_processed_recorded r url (repo_take_on net r up up id now later s).1
          (to_storage_crawl_status status) (held_info id later info) held in
      rw normal (took.0, marked.0, marked.1 url ∙ ground (arith, eq_iff url url), marked.2)

  -- Let the queue, behind the due retries, end in `url`, with a record that has a parent. If the
  -- URL's normal form prints as a text with no record, then `MarkProcessed` of what `TakeOn`
  -- returned fails, and `url` stays in processing.
  pub repo_take_on_unmarked :
      (status : Status.CrawlStatus)
      → IsNext
      → hget r (net.string (normalize net g)) (enqueue_urls r now s) ≡ none
      → let took = repo_take_on net r up up id now later s in
        let marked = repo_mark_processed net r up (net.string (normalize net g)) status took.1 in
        (took.0 ≡ ok (domain_form net g parent info))
        × (marked.0 ≡ err Error.script)
        × (hget r url marked.1 ≡ some (held_info id later info))
  unfolding repo_mark_processed
  repo_take_on_unmarked status next missing =
      let took = repo_take_on_next next in
      let other = net.string (normalize net g) in
      let left : hget r other (repo_take_on net r up up id now later s).1 ≡ none =
        took.1 other ∙ ground (arith, eq_iff url other, next.1, missing) in
      let failed =
        finish_unrecorded r other (repo_take_on net r up up id now later s).1
          (to_storage_crawl_status status) (pos 0) left in
      (
        took.0,
        failed.0,
        ap (λ (o : Db). o.hashes url_status url) failed.1
            ∙ (took.1 url ∙ ground (arith, eq_iff url url)),
      )
