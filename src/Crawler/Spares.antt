-- ===== src/Crawler/Spares.antt =====
-- The calls of one worker give another worker no URL.
use oafse.Common.{
  ℕ, ◌≡◌, ◌≢◌, String, Bool, true, false, Option, none, some, refl, sym, subst, ap, str_eq,
  if◌then◌else◌,
}
use oafse.Common.Int.{ℤ, unix_milli}
use oafse.Common.Go.{GoResult, ok, err, panic, and_then}
use oafse.Domain.Url.{NetUrl}
use oafse.Domain.Status
use oafse.Storage.Model.{CrawlStatus}
use oafse.Storage.Mapper.{to_storage_crawl_status, to_domain_url}
use oafse.UseCase.Parse.Contract.{IsTerminal}
use oafse.Redis.Info.{UrlInfo, url_status, queue, worker}
use oafse.Redis.Db.{Db, get_last?, lmove, move_last}
use oafse.Redis.Api.{Redis, reference}
use oafse.Redis.Scripts.{
  hget, pop_url, pop_moved, pop_taken, retry_url, retry_known, mark_processed, mark_known,
  enqueue_urls, retry_count,
}
use oafse.Redis.Scripts.Simulation.{observe-pop_url, observe-retry_url, observe-mark_processed}
use oafse.Redis.Net.{Link, up, request_lost, reply_lost, call}
use oafse.Redis.Queue.{taken, queue_take_on}
use oafse.Redis.UrlDs.{enqueue, take_on}
use oafse.Redis.Processing.{answered, processing_retry_url, processing_mark_processed}
use oafse.Repo.UrlRepo.{repo_take_on, repo_mark_processed, repo_retry_url}
use oafse.Crawler.Sound.{IsHeld}
use oafse.Crawler.Gains.{written, NoneGained, GainsNone, enqueue_urls-GainsNone}
use oafse.Crawler.Only.{kept_state, terminal-ends}

module _ (before : String → String → Bool) (id : String) where
  -- The record that a take writes names the worker that takes.
  taken_by_other :
      (worker_id : String) (here : Bool) (x : UrlInfo) (o o' : Option UrlInfo)
      → o' ≡ (if here then some x else o)
      → x.worker_id ≢ id
      → IsHeld id o'
      → IsHeld id o
  taken_by_other worker_id true x o o' e n h = absurd (n (subst (IsHeld id) e h).1)
  taken_by_other worker_id false x o o' e n h = subst (IsHeld id) e h

  pop_taken-NoneGained :
      (worker_id : String) (now : ℕ) (url : String) (o : Option UrlInfo) (db : Db)
      → worker_id ≢ id
      → NoneGained id db (pop_taken (reference before) worker_id now url o db).1
  pop_taken-NoneGained worker_id now url none db n v h = h
  pop_taken-NoneGained worker_id now url (some i) db n v h =
      taken_by_other worker_id (str_eq url v) _ (db.hashes url_status v) _ refl n h

  pop_moved-NoneGained :
      (worker_id : String) (now : ℕ) (o : Option String) (db : Db)
      → worker_id ≢ id
      → NoneGained id db (pop_moved (reference before) worker_id now o db).1
  pop_moved-NoneGained worker_id now none db n v h = h
  pop_moved-NoneGained worker_id now (some url) db n v h =
      pop_taken-NoneGained worker_id now url (hget (reference before) url db) db n v h

  mark-NoneGained :
      (url : String) (status : CrawlStatus) (o : Option UrlInfo) (db : Db)
      → status ≢ CrawlStatus.processing
      → NoneGained id db (mark_known (reference before) url status o db).1
  mark-NoneGained url status none db n v h = h
  mark-NoneGained url status (some i) db n v h =
      (written id (str_eq url v) (record i { status = status }) (db.hashes url_status v) _ refl n
        h).0

  retry-NoneGained :
      (url : String) (at : ℤ) (o : Option UrlInfo) (db : Db)
      → NoneGained id db (retry_known (reference before) url at o db).1
  retry-NoneGained url at none db v h = h
  retry-NoneGained url at (some i) db v h =
      (written id (str_eq url v) _ (db.hashes url_status v) _ refl (λ q. cc) h).0

move_last-NoneGained :
    (id worker_id : String) (o : Option String) (db : Db)
    → NoneGained id db (move_last queue (worker worker_id) o db)
move_last-NoneGained id worker_id none db v h = h
move_last-NoneGained id worker_id (some url) db v h = h

module _ (net : NetUrl) (r : Redis) (id : String) where
  open r use {Store, contents, before}

  pop_url-GainsNone :
      (worker_id : String) (now : ℕ) (s : Store)
      → worker_id ≢ id
      → GainsNone net r id s (pop_url r worker_id now s).1
  unfolding pop_url
  pop_url-GainsNone worker_id now s n =
      subst (NoneGained id (contents s)) (sym (ap (λ o. o.1) (observe-pop_url r worker_id now s)))
        (λ v h.
          move_last-NoneGained id worker_id (get_last? ((contents s).lists queue)) (contents s) v (
            pop_moved-NoneGained before id worker_id now (get_last? ((contents s).lists queue))
              (lmove queue (worker worker_id) (contents s)) n v h))

  mark_processed-GainsNone :
      (url : String) (status : CrawlStatus) (s : Store)
      → status ≢ CrawlStatus.processing
      → GainsNone net r id s (mark_processed r url status s).1
  unfolding mark_processed
  mark_processed-GainsNone url status s n =
      subst (NoneGained id (contents s))
        (sym (ap (λ o. o.1) (observe-mark_processed r url status s)))
        (mark-NoneGained before id url status (hget r url s) (contents s) n)

  retry_url-GainsNone :
      (url : String) (at : ℤ) (s : Store) → GainsNone net r id s (retry_url r url at s).1
  unfolding retry_url
  retry_url-GainsNone url at s =
      subst (NoneGained id (contents s)) (sym (ap (λ o. o.1) (observe-retry_url r url at s)))
        (retry-NoneGained before id url at (hget r url s) (contents s))

  -- A request may be lost, or its reply.
  call-GainsNone :
      {A : Type 0} (link : Link) (m : Store → A × Store) (s : Store)
      → GainsNone net r id s (m s).1
      → GainsNone net r id s (call link m s).1
  call-GainsNone up m s h = h
  call-GainsNone request_lost m s h = λ v k. k
  call-GainsNone reply_lost m s h = h

  and_then-GainsNone :
      {A B : Type 0} (s : Store) (x : GoResult A × Store) (k : A → Store → GoResult B × Store)
      → GainsNone net r id s x.1
      → ((a : A) → GainsNone net r id x.1 (k a x.1).1)
      → GainsNone net r id s (and_then x k).1
  and_then-GainsNone s (ok a, t) k h next = λ v held. h v (next a v held)
  and_then-GainsNone s (err e, t) k h next = h
  and_then-GainsNone s (panic, t) k h next = h

  pub repo_take_on-GainsNone :
      (worker_id : String) (enqueue_link link : Link) (now later : ℕ) (s : Store)
      → worker_id ≢ id
      → GainsNone net r id s (repo_take_on net r enqueue_link link worker_id now later s).1
  unfolding repo_take_on take_on enqueue queue_take_on
  repo_take_on-GainsNone worker_id enqueue_link link now later s n =
      let m : Store → ℕ × Store = λ s'. let t = enqueue_urls r now s' in (retry_count r t, t) in
      kept_state net r id s (take_on r enqueue_link link worker_id now later s) (to_domain_url net)
        (and_then-GainsNone s (call enqueue_link m s)
          (λ _ s'. queue_take_on r link worker_id later s')
          (call-GainsNone enqueue_link m s (enqueue_urls-GainsNone net r id s now))
          (λ count.
            let t = (call enqueue_link m s).1 in
            kept_state net r id t (call link (pop_url r worker_id later) t) taken (
              call-GainsNone link (pop_url r worker_id later) t
                (pop_url-GainsNone worker_id later t n))))

  pub repo_mark_processed-GainsNone :
      (link : Link) (url : String) (status : Status.CrawlStatus) (s : Store)
      → IsTerminal status
      → GainsNone net r id s (repo_mark_processed net r link url status s).1
  unfolding repo_mark_processed processing_mark_processed
  repo_mark_processed-GainsNone link url status s fin =
      let to = to_storage_crawl_status status in
      kept_state net r id s (call link (mark_processed r url to) s) answered (
        call-GainsNone link (mark_processed r url to) s
          (mark_processed-GainsNone url to s (terminal-ends status fin)))

  pub repo_retry_url-GainsNone :
      (link : Link) (url : String) (at : ℤ) (s : Store)
      → GainsNone net r id s (repo_retry_url net r link url at s).1
  unfolding repo_retry_url processing_retry_url
  repo_retry_url-GainsNone link url at s =
      kept_state net r id s (call link (retry_url r url (unix_milli at)) s) answered (
        call-GainsNone link (retry_url r url (unix_milli at)) s
          (retry_url-GainsNone url (unix_milli at) s))
