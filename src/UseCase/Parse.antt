-- ===== src/UseCase/Parse.antt =====
-- internal/application/usecase/parse.go. Logs are left out.
pub mod Outcome
pub mod Contract
pub mod Kept
pub mod Traced
pub mod Counted
use oafse.Common.{ℕ, String, Option, none, some, List, [], ◌∷◌, ltb, if◌then◌else◌, str_eq}
use oafse.Common.Int.{ℤ, pos, ◌+ℤ◌, ◌-ℤ◌}
use oafse.Common.Go.{GoResult, ok, err, panic, Error, queue_empty, transient, and_then}
use oafse.Domain.Status.{CrawlStatus}
use oafse.Domain.Url.{Url}
use oafse.Domain.Page.{Page}
use oafse.Port.Fetch.{FetchStatus, FetchData}
use oafse.Metrics.{
  AttemptStatus, status_ok, status_retry, status_impossible, status_give_up, status_manual,
}
use oafse.Port.Crawl.{CrawlPorts, CrawlMetadata, ParseCmd}

module _ {S F : Type 0} (p : CrawlPorts S F) where
  unfoldable pub mark_terminal :
      Url → CrawlStatus → AttemptStatus → S → GoResult (Option ParseCmd) × S
  mark_terminal url status label s =
      and_then (p.mark_processed (p.url_string url) status (p.count_attempt label s))
        λ _ s'. (ok none, s')

  unfoldable pub give_up : Url → S → GoResult (Option ParseCmd) × S
  unfolding mark_terminal
  give_up url s = mark_terminal url CrawlStatus.give_up status_give_up s

  unfoldable pub leave_for_recovery : Url → S → GoResult (Option ParseCmd) × S
  leave_for_recovery url s = (ok none, s)

  -- `if err != nil { return uc.giveUp(url, err) }`
  abbrev pub or_give_up :
      {A : Type 0}
      → Url
      → GoResult A × S
      → (A → S → GoResult (Option ParseCmd) × S)
      → GoResult (Option ParseCmd) × S
  or_give_up url (ok a, s) k = k a s
  or_give_up url (err e, s) k = give_up url s
  or_give_up url (panic, s) k = (panic, s)

  -- The same for a write to Postgres: a transient error leaves the URL to the health check.
  abbrev pub or_leave :
      {A : Type 0}
      → Url
      → GoResult A × S
      → (A → S → GoResult (Option ParseCmd) × S)
      → GoResult (Option ParseCmd) × S
  or_leave url (ok a, s) k = k a s
  or_leave url (err transient, s) k = leave_for_recovery url s
  or_leave url (err e, s) k = give_up url s
  or_leave url (panic, s) k = (panic, s)

  unfoldable pub push_links : Url → List Url → S → GoResult (Option ParseCmd) × S
  unfolding give_up
  push_links url links s =
      let finish = λ (t : S).
        or_give_up url (p.mark_processed (p.url_string url) CrawlStatus.done t)
          λ _ s'. (ok none, p.count_attempt status_ok s') in
      elim links [
        | [] ↦ finish s
        | l ∷ ls ↦ or_give_up url (p.push_urls (l ∷ ls) s) λ _ s'. finish s'
      ]

  unfoldable pub save_parent_link : Url → ℕ → List Url → S → GoResult (Option ParseCmd) × S
  unfolding push_links leave_for_recovery
  save_parent_link url page_id links s =
      if str_eq url.parent ""
      then push_links url links s
      else or_leave url (p.save_link url.parent page_id s) λ _ s'. push_links url links s'

  -- The lines behind a successful fetch.
  unfoldable pub process_page : Url → FetchData → S → GoResult (Option ParseCmd) × S
  unfolding save_parent_link
  process_page url fd s = or_give_up url (p.extract fd s) λ extracted s'.
      or_leave url (p.save_page extracted.0 s')
        λ page_id s''. save_parent_link url page_id extracted.1 s''

  abbrev pub retry_or_give_up : Url → Option ℤ → S → GoResult (Option ParseCmd) × S
  retry_or_give_up url none s = give_up url s
  retry_or_give_up url (some at) s =
      or_give_up url (p.retry_url (p.url_string url) at s)
        λ _ s'. (ok none, p.count_attempt status_retry s')

  abbrev pub on_status : Url → FetchData → FetchStatus → S → GoResult (Option ParseCmd) × S
  on_status url fd FetchStatus.fetch_ok s = process_page url fd s
  on_status url fd FetchStatus.fetch_retry s = retry_or_give_up url (p.calc_retry_time url.try s) s
  on_status url fd FetchStatus.fetch_manual s = mark_terminal url CrawlStatus.manual status_manual s
  on_status url fd FetchStatus.fetch_impossible s =
      mark_terminal url CrawlStatus.give_up status_impossible s

  abbrev pub retry_time : Option ℤ → ℤ → ℤ
  retry_time none soon = soon
  retry_time (some earliest) soon = earliest

  -- The answer to an empty queue: sleep while URLs are unprocessed, and else wait for a push.
  unfoldable pub idle : CrawlMetadata → S → GoResult (Option ParseCmd) × S
  idle md s =
      if ltb 0 md.unprocessed_count
      then (
        ok (
            some (record {
              sleep_for =
                  retry_time md.earliest_retry (p.now s +ℤ pos (p.jitter s)) -ℤ p.now_later s;
            })),
        s,
      )
      else (ok (some (record { sleep_for = pos 0 })), s)

  abbrev pub on_taken : GoResult Url × S → GoResult (Option ParseCmd) × S
  on_taken (ok url, s) = or_give_up url (p.fetch url s) λ fd s'. on_status url fd fd.status s'
  on_taken (err queue_empty, s) = and_then (p.get_crawl_metadata s) idle
  on_taken (err e, s) = (err e, s)
  on_taken (panic, s) = (panic, s)

  unfoldable pub execute : String → S → GoResult (Option ParseCmd) × S
  unfolding process_page idle
  execute worker_id s = on_taken (p.take_on worker_id s)
