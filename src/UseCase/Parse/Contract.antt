-- ===== src/UseCase/Parse/Contract.antt =====
-- What `Execute` of internal/application/usecase/parse.go needs of its ports to keep the state that
-- they share valid.
use oafse.Common.{ℕ, ◌≡◌, String, List}
use oafse.Common.Int.{ℤ}
use oafse.Common.Go.{GoResult, ok, err, panic, queue_empty}
use oafse.Common.Runs.{Ends}
use oafse.Domain.Status.{CrawlStatus}
use oafse.Domain.Url.{Url}
use oafse.Domain.Page.{Page}
use oafse.Port.Fetch.{FetchStatus, FetchData}
use oafse.Metrics.{AttemptStatus}
use oafse.Port.Crawl.{CrawlPorts}

-- The statuses that a worker gives a URL for good.
abbrev pub IsTerminal : CrawlStatus → Type 0
IsTerminal CrawlStatus.done = Unit
IsTerminal CrawlStatus.manual = Unit
IsTerminal CrawlStatus.give_up = Unit
IsTerminal _ = ⊥

-- How `TakeOn` ends: with a URL, on an empty queue, or with another error.
abbrev pub EndsTake :
    {S : Type 0} → (S → Type 0) → (S → Type 0) → (Url → S → Type 0) → GoResult Url × S → Type 0
EndsTake E Q P (ok u, s) = P u s
EndsTake E Q P (err queue_empty, s) = Q s
EndsTake E Q P (err e, s) = E s
EndsTake E Q P (panic, s) = ⊥

-- `Valid` is the invariant of the state, and `Legal` relates a state to those that legal steps lead
-- to. In a valid state `Quiet` says that the run has taken no URL, `Holds u` that the worker `id`
-- holds `u` and the run has taken no other, and `Finished` that the run may end with a value. A
-- failed write to Postgres leaves the state `Broken`.
pub record Contract {S F : Type 0} (p : CrawlPorts S F) (id : String) : Type 1 where
  pub Valid : S → Type 0
  pub Holds : Url → S → Type 0
  pub Quiet : S → Type 0
  pub Finished : S → Type 0
  pub Broken : S → Type 0
  pub Legal : S → S → Type 0
  pub Extractable : FetchData → Type 0
  pub Pushable : List Url → Type 0
  pub holds_valid : (u : Url) (s : S) → Holds u s → Valid s
  pub left_law : (u : Url) (s : S) → Holds u s → Broken s → Finished s
  pub legal_trans : (s t u : S) → Legal s t → Legal t u → Legal s u
  pub take_on_law :
      (s : S)
      → Quiet s
      → EndsTake
          (λ t. Legal s t × Valid t)
          (λ t. Legal s t × Quiet t)
          (λ u t. Legal s t × Holds u t)
          (p.take_on id s)
  pub metadata_law :
      (s : S)
      → Quiet s
      → Ends (λ t. Legal s t × Valid t) (λ md t. Legal s t × Finished t) (p.get_crawl_metadata s)
  pub count_held_law :
      (u : Url) (label : AttemptStatus) (s : S)
      → Holds u s
      → Legal s (p.count_attempt label s) × Holds u (p.count_attempt label s)
  pub count_finished_law :
      (label : AttemptStatus) (s : S)
      → Finished s
      → Legal s (p.count_attempt label s) × Finished (p.count_attempt label s)
  pub mark_law :
      (u : Url) (status : CrawlStatus) (s : S)
      → Holds u s
      → IsTerminal status
      → Ends
          (λ t. Legal s t × Holds u t)
          (λ _ t. Legal s t × Finished t)
          (p.mark_processed (p.url_string u) status s)
  pub retry_law :
      (u : Url) (at : ℤ) (s : S)
      → Holds u s
      → Ends
          (λ t. Legal s t × Holds u t)
          (λ _ t. Legal s t × Finished t)
          (p.retry_url (p.url_string u) at s)
  pub push_law :
      (u : Url) (links : List Url) (s : S)
      → Holds u s
      → Pushable links
      → Ends (λ t. Legal s t × Holds u t) (λ _ t. Legal s t × Holds u t) (p.push_urls links s)
  pub save_page_law :
      (u : Url) (page : Page F) (s : S)
      → Holds u s
      → Ends
          (λ t. Legal s t × (Holds u t × Broken t))
          (λ _ t. Legal s t × Holds u t)
          (p.save_page page s)
  pub save_link_law :
      (u : Url) (parent : String) (id : ℕ) (s : S)
      → Holds u s
      → Ends
          (λ t. Legal s t × (Holds u t × Broken t))
          (λ _ t. Legal s t × Holds u t)
          (p.save_link parent id s)
  pub fetch_law :
      (u : Url) (s : S)
      → Holds u s
      → Ends
          (λ t. Legal s t × Holds u t)
          (λ fd t. Legal s t × (Holds u t × (fd.status ≡ FetchStatus.fetch_ok → Extractable fd)))
          (p.fetch u s)
  pub extract_law :
      (u : Url) (fd : FetchData) (s : S)
      → Holds u s
      → Extractable fd
      → Ends
          (λ t. Legal s t × Holds u t)
          (λ found t. Legal s t × (Holds u t × Pushable found.1))
          (p.extract fd s)
