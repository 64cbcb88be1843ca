-- ===== src/Crawler/Settle.antt =====
-- `MarkProcessed` and `RetryURL` of a URL that the worker holds, where no reply is lost.
use oafse.Common.{◌≡◌, ◌≢◌, String, Option, none, some, refl}
use oafse.Common.Int.{ℤ, unix_milli}
use oafse.Common.Go.{and_then}
use oafse.Common.Runs.{Ends, and_then-Ends}
use oafse.Domain.Url.{NetUrl}
use oafse.Domain.Status
use oafse.UseCase.Parse.Contract.{IsTerminal}
use oafse.Storage.Model.{CrawlStatus}
use oafse.Storage.Mapper.{to_storage_crawl_status}
use oafse.Redis.Info.{UrlInfo}
use oafse.Redis.Api.{Redis}
use oafse.Redis.Scripts.{Done, done, hget, retry_url, mark_processed, retry_known, mark_known}
use oafse.Redis.Net.{Link, reply_lost, call}
use oafse.Redis.Placement.{status_of, IsFinal}
use oafse.Redis.Processing.{answered, processing_retry_url, processing_mark_processed}
use oafse.Redis.Reach.{marks, retries}
use oafse.Repo.UrlRepo.{repo_mark_processed, repo_retry_url}
use oafse.Crawler.Readable.{retry_url-AllReadable, mark_processed-AllReadable}
use oafse.Crawler.Holding.{mark_processed-Keeps, retry_url-Keeps}
use oafse.Crawler.Sound.{IsHeld, IsSound, Holds, Moves, Moves-refl, Step-Moves, call_settled}

pub held-processing :
    (id : String) (o : Option UrlInfo) → IsHeld id o → status_of o ≡ CrawlStatus.processing
held-processing id none h = absurd h
held-processing id (some info) h = h.0

terminal-IsFinal :
    (status : Status.CrawlStatus) → IsTerminal status → IsFinal (to_storage_crawl_status status)
terminal-IsFinal Status.CrawlStatus.done h = (refl, refl, refl)
terminal-IsFinal Status.CrawlStatus.manual h = (refl, refl, refl)
terminal-IsFinal Status.CrawlStatus.give_up h = (refl, refl, refl)
terminal-IsFinal Status.CrawlStatus.queued h = absurd h
terminal-IsFinal Status.CrawlStatus.processing h = absurd h
terminal-IsFinal Status.CrawlStatus.retry h = absurd h
terminal-IsFinal Status.CrawlStatus.unknown h = absurd h

module _ (net : NetUrl) (r : Redis) (other id url : String) (link : Link) (s : r.Store) where
  open r use {Store, contents}

  -- The store as it was but for legal steps, and the worker still holds the URL.
  abbrev pub StillHeld : Store → Type 0
  StillHeld t = Moves net r other s t × Holds net r id url t

  mark-done :
      (status : CrawlStatus) (o : Option UrlInfo)
      → IsHeld id o
      → (mark_known r url status o s).0 ≡ done
  mark-done status none h = absurd h
  mark-done status (some info) h = refl

  retry-done : (at : ℤ) (o : Option UrlInfo) → IsHeld id o → (retry_known r url at o s).0 ≡ done
  retry-done at none h = absurd h
  retry-done at (some info) h = refl

  settle_rule :
      (m : Store → Done × Store)
      → link ≢ reply_lost
      → IsSound net r s
      → Holds net r id url s
      → (m s).0 ≡ done
      → Moves net r other s (m s).1
      → Ends StillHeld (λ _. Moves net r other s) (and_then (call link m s) λ d t. (answered d, t))
  settle_rule m kept sound held fine after =
      and_then-Ends StillHeld (λ d t. (d ≡ done) × Moves net r other s t) (λ _. Moves net r other s)
        (call link m s) (λ d t. (answered d, t))
        (call_settled net r link m s StillHeld (λ d t. (d ≡ done) × Moves net r other s t) kept
          (Moves-refl net r other s sound, held) (fine, after))
        (λ d t (is_done, moves). rw is_done moves)

  -- `MarkProcessed` with a status that ends the URL's way: legal steps lead to a sound store, and
  -- the worker still holds the URL if there is an error.
  pub repo_mark_processed-Ends :
      (status : Status.CrawlStatus)
      → link ≢ reply_lost
      → id ≢ other
      → IsSound net r s
      → Holds net r id url s
      → IsTerminal status
      → Ends StillHeld (λ _. Moves net r other s) (repo_mark_processed net r link url status s)
  unfolding repo_mark_processed processing_mark_processed
  repo_mark_processed-Ends status kept distinct sound held fin =
      let to = to_storage_crawl_status status in
      settle_rule (mark_processed r url to) kept sound held
        (unfold mark_processed in mark-done to (hget r url s) held)
        (Step-Moves net r other s (mark_processed r url to s).1 sound
          (marks url to (held-processing id (hget r url s) held) (terminal-IsFinal status fin))
          (mark_processed-Keeps net r other s id url distinct held to)
          (mark_processed-AllReadable net r s sound.1 url to))

  -- `RetryURL` likewise.
  pub repo_retry_url-Ends :
      (at : ℤ)
      → link ≢ reply_lost
      → id ≢ other
      → IsSound net r s
      → Holds net r id url s
      → Ends StillHeld (λ _. Moves net r other s) (repo_retry_url net r link url at s)
  unfolding repo_retry_url processing_retry_url
  repo_retry_url-Ends at kept distinct sound held =
      settle_rule (retry_url r url (unix_milli at)) kept sound held
        (unfold retry_url in retry-done (unix_milli at) (hget r url s) held)
        (Step-Moves net r other s (retry_url r url (unix_milli at) s).1 sound
          (retries url (unix_milli at) (held-processing id (hget r url s) held))
          (retry_url-Keeps net r other s id url distinct held (unix_milli at))
          (retry_url-AllReadable net r s sound.1 url (unix_milli at)))
