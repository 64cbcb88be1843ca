-- ===== src/Crawler/Only.antt =====
-- What the calls of the URL repository add to the URLs that a worker holds.
use oafse.Common.{
  ℕ, zero, suc, ◌≡◌, ◌≢◌, ◌∙◌, ◌⊎◌, inl, inr, String, true, Option, none, some, List, [], ◌∷◌, map,
  refl, sym, ap, arith, eq_iff, str_eq,
}
use oafse.Common.Int.{ℤ, unix_milli}
use oafse.Common.Go.{GoResult, ok, err, panic, queue_empty, and_then}
use oafse.Domain.Status
use oafse.Domain.Url.{Url, GoUrl, NetUrl, normalize}
use oafse.Storage.Model.{CrawlStatus, UrlCache}
use oafse.Storage.Mapper.{to_domain_url, domain_url_of, to_storage_url, to_storage_crawl_status}
use oafse.Redis.Api.{Redis}
use oafse.Redis.Db.{Db}
use oafse.Redis.Scripts.{
  Done, done, url_not_found, PopReply, nil, fields, decode_error, pop_url, enqueue_urls, push_url,
  retry_url, mark_processed,
}
use oafse.Redis.Net.{Link, up, request_lost, reply_lost, call}
use oafse.Redis.Queue.{
  Pipe, delivered, broken, taken, queue_take_on, push_each, push_some, push_urls,
}
use oafse.Redis.UrlDs.{enqueue, take_on}
use oafse.Redis.Processing.{answered, processing_retry_url, processing_mark_processed}
use oafse.Repo.UrlRepo.{
  to_domain_urls, repo_take_on, repo_push_urls, repo_mark_processed, repo_retry_url,
}
use oafse.UseCase.Parse.Contract.{IsTerminal}
use oafse.Crawler.Readable.{IsNormalText}
use oafse.Crawler.Sound.{IsSound, Holds}
use oafse.Crawler.Take.{Fits, pop_url-Fits, enqueue_urls-Moves}
use oafse.Crawler.Gains.{
  Gained, GainsNone, Releases, push_url-GainsNone, enqueue_urls-GainsNone, pop_url-Gained,
  mark_processed-Releases, retry_url-Releases,
}

pub terminal-ends :
    (status : Status.CrawlStatus)
    → IsTerminal status
    → to_storage_crawl_status status ≢ CrawlStatus.processing
terminal-ends Status.CrawlStatus.done h = λ q. cc
terminal-ends Status.CrawlStatus.manual h = λ q. cc
terminal-ends Status.CrawlStatus.give_up h = λ q. cc
terminal-ends Status.CrawlStatus.queued h = absurd h
terminal-ends Status.CrawlStatus.processing h = absurd h
terminal-ends Status.CrawlStatus.retry h = absurd h
terminal-ends Status.CrawlStatus.unknown h = absurd h

module _ (net : NetUrl) (r : Redis) (id : String) where
  open r use {Store, contents}

  -- A take adds the URL that it returns, and nothing where the queue is empty.
  abbrev pub TakesOnly : Store → GoResult Url × Store → Type 0
  TakesOnly s (ok u, t) =
      (v : String) → Holds net r id v t → Holds net r id v s ⊎ (v ≡ net.string u.url)
  TakesOnly s (err queue_empty, t) = GainsNone net r id s t
  TakesOnly s (err e, t) = Unit
  TakesOnly s (panic, t) = Unit

  domain-TakesOnly :
      (s t : Store) (u : UrlCache) (o : Option GoUrl)
      → net.parse u.url ≡ o
      → IsNormalText net u.url
      → ((v : String) → Holds net r id v t → Holds net r id v s ⊎ (str_eq u.url v ≡ true))
      → TakesOnly s (domain_url_of net u o, t)
  domain-TakesOnly s t u none e n gained = tt
  domain-TakesOnly s t u (some g) e (g', parsed, printed) gained = λ v h.
      let same : g' ≡ g = ground (arith, e, parsed) in
      let text : u.url ≡ net.string (normalize net g) =
        sym printed ∙ ap (λ (x : GoUrl). net.string (normalize net x)) same in
      elim (gained v h) [
        | inl before ↦ inl before
        | inr q ↦ inr (ground (arith, q, eq_iff u.url v, text))
      ]

  taken-TakesOnly :
      (s t : Store) (reply : PopReply)
      → Fits net id reply (contents t)
      → Gained id reply (contents s) (contents t)
      → TakesOnly s (and_then (taken reply, t) λ u s'. (to_domain_url net u, s'))
  taken-TakesOnly s t nil f gained = gained
  taken-TakesOnly s t decode_error f gained = tt
  taken-TakesOnly s t (fields url try none) f gained = absurd f
  taken-TakesOnly s t (fields url try (some parent)) f gained =
      domain-TakesOnly s t (record { url = url; parent = parent; try = try }) (net.parse url) refl
        f.0 gained

  Gained-after :
      (s t : Store) (reply : PopReply) (db : Db)
      → GainsNone net r id s t
      → Gained id reply (contents t) db
      → Gained id reply (contents s) db
  Gained-after s t nil db none_before gained = λ v h. none_before v (gained v h)
  Gained-after s t decode_error db none_before gained = tt
  Gained-after s t (fields url try parent) db none_before gained =
      λ v h. elim (gained v h) [ inl before ↦ inl (none_before v before) | inr q ↦ inr q ]

  queue-TakesOnly :
      (link : Link) (now : ℕ) (s t : Store)
      → IsSound net r t
      → GainsNone net r id s t
      → TakesOnly s (and_then (queue_take_on r link id now t) λ u s'. (to_domain_url net u, s'))
  unfolding queue_take_on
  queue-TakesOnly up now s t sound none_before =
      taken-TakesOnly s (pop_url r id now t).1 (pop_url r id now t).0
        (pop_url-Fits net r id id now t sound)
        (Gained-after s t (pop_url r id now t).0 (contents (pop_url r id now t).1) none_before
          (pop_url-Gained net r id t now sound))
  queue-TakesOnly request_lost now s t sound none_before = tt
  queue-TakesOnly reply_lost now s t sound none_before = tt

  pub repo_take_on-TakesOnly :
      (enqueue_link link : Link) (now later : ℕ) (s : Store)
      → IsSound net r s
      → TakesOnly s (repo_take_on net r enqueue_link link id now later s)
  unfolding repo_take_on take_on enqueue
  repo_take_on-TakesOnly up link now later s sound =
      queue-TakesOnly link later s (enqueue_urls r now s)
        (enqueue_urls-Moves net r id id now s sound).1.1 (enqueue_urls-GainsNone net r id s now)
  repo_take_on-TakesOnly request_lost link now later s sound = tt
  repo_take_on-TakesOnly reply_lost link now later s sound = tt

  -- A push adds nothing.
  push_each-GainsNone : (us : List UrlCache) (s : Store) → GainsNone net r id s (push_each r us s).1
  unfolding push_each
  push_each-GainsNone [] s v h = h
  push_each-GainsNone (u ∷ us) s v h =
      push_url-GainsNone net r id s u.url u.parent v
        (push_each-GainsNone us (push_url r u.url u.parent s).1 v h)

  push_some-GainsNone :
      (n : ℕ) (us : List UrlCache) (s : Store) → GainsNone net r id s (push_some r n us s)
  unfolding push_some
  push_some-GainsNone zero us s v h = h
  push_some-GainsNone (suc n) [] s v h = h
  push_some-GainsNone (suc n) (u ∷ us) s v h =
      push_url-GainsNone net r id s u.url u.parent v
        (push_some-GainsNone n us (push_url r u.url u.parent s).1 v h)

  push_urls-GainsNone :
      (pipe : Pipe) (us : List UrlCache) (s : Store)
      → GainsNone net r id s (push_urls r pipe us s).1
  unfolding push_urls
  push_urls-GainsNone delivered us s = push_each-GainsNone us s
  push_urls-GainsNone (broken n) us s = push_some-GainsNone n us s

  pub kept_state :
      {A B : Type 0} (s : Store) (x : GoResult A × Store) (k : A → GoResult B)
      → GainsNone net r id s x.1
      → GainsNone net r id s (and_then x λ a t. (k a, t)).1
  kept_state s (ok a, t) k h = h
  kept_state s (err e, t) k h = h
  kept_state s (panic, t) k h = h

  pub repo_push_urls-GainsNone :
      (pipe : Pipe) (us : List Url) (s : Store)
      → GainsNone net r id s (repo_push_urls net r pipe us s).1
  unfolding repo_push_urls
  repo_push_urls-GainsNone pipe us s =
      kept_state s (push_urls r pipe (map (to_storage_url net) us) s) (to_domain_urls net)
        (push_urls-GainsNone pipe (map (to_storage_url net) us) s)

  -- Of a URL that the worker holds, a mark or a retry that succeeds releases it; one that fails
  -- adds nothing.
  module _ (url : String) (s : Store) (held : Holds net r id url s) where
    abbrev pub ReleasesBy : GoResult (Unit {0}) × Store → Type 0
    ReleasesBy (ok a, t) = Releases net r id s url held t
    ReleasesBy (err e, t) = GainsNone net r id s t
    ReleasesBy (panic, t) = Unit

    answer : (t : Store) (d : Done) → Releases net r id s url held t → ReleasesBy (answered d, t)
    answer t done h = h
    answer t (url_not_found u) h = λ v k. (h v k).0

    answered-ReleasesBy :
        (link : Link) (m : Store → Done × Store)
        → Releases net r id s url held (m s).1
        → ReleasesBy (and_then (call link m s) λ d t. (answered d, t))
    answered-ReleasesBy up m h = answer (m s).1 (m s).0 h
    answered-ReleasesBy request_lost m h = λ v k. k
    answered-ReleasesBy reply_lost m h = λ v k. (h v k).0

    pub repo_mark_processed-ReleasesBy :
        (link : Link) (status : Status.CrawlStatus)
        → IsTerminal status
        → ReleasesBy (repo_mark_processed net r link url status s)
    unfolding repo_mark_processed processing_mark_processed
    repo_mark_processed-ReleasesBy link status fin =
        let to = to_storage_crawl_status status in
        answered-ReleasesBy link (mark_processed r url to)
          (mark_processed-Releases net r id s url held to (terminal-ends status fin))

    pub repo_retry_url-ReleasesBy :
        (link : Link) (at : ℤ) → ReleasesBy (repo_retry_url net r link url at s)
    unfolding repo_retry_url processing_retry_url
    repo_retry_url-ReleasesBy link at =
        answered-ReleasesBy link (retry_url r url (unix_milli at))
          (retry_url-Releases net r id s url held (unix_milli at))
