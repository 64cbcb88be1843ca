-- ===== src/UseCase/Parse/Outcome.antt =====
-- What becomes of a URL that `Execute` took, for all answers of the ports.
use oafse.Common.{ℕ, ◌≡◌, String, Option, some, List, [], ◌∷◌, arith, if◌then◌else◌, str_eq}
use oafse.Common.Int.{ℤ, pos}
use oafse.Common.Go.{GoResult, ok, err, panic, transient}
use oafse.Domain.Status.{CrawlStatus}
use oafse.Domain.Url.{Url}
use oafse.Domain.Page.{Page}
use oafse.Port.Fetch.{FetchStatus, FetchData}
use oafse.Port.Crawl.{CrawlPorts}
use oafse.UseCase.Parse.{execute}

-- The answers of the ports to the calls that a run may make.
pub record Answers (F : Type 0) : Type 0 where
  pub taken : Url
  pub fetched : Url → GoResult FetchData
  pub extracted : FetchData → GoResult (Page F × List Url)
  pub saved : Page F → GoResult ℕ
  pub linked : GoResult (Unit {0})
  pub pushed : GoResult (List Url)
  pub retried : GoResult (Unit {0})
  pub marked : CrawlStatus → GoResult (Unit {0})
  pub retry_at : ℕ → Option ℤ
  pub url_string : Url → String

-- The calls that write, with their arguments.
pub data Call (F : Type 0) : Type 0 where
  marks : String → CrawlStatus → Call F
  retries : String → ℤ → Call F
  saves : Page F → Call F
  links : String → ℕ → Call F
  pushes : List Url → Call F

-- A world that keeps the calls, the latest first.
abbrev pub scripted : {F : Type 0} → Answers F → CrawlPorts (List (Call F)) F
scripted a = record {
  take_on = λ id s. (ok a.taken, s);
  push_urls = λ urls s. (a.pushed, pushes urls ∷ s);
  retry_url = λ url at s. (a.retried, retries url at ∷ s);
  mark_processed = λ url status s. (a.marked status, marks url status ∷ s);
  get_crawl_metadata = λ s. (panic, s);
  save_page = λ page s. (a.saved page, saves page ∷ s);
  save_link = λ parent id s. (a.linked, links parent id ∷ s);
  fetch = λ url s. (a.fetched url, s);
  extract = λ fd s. (a.extracted fd, s);
  count_attempt = λ label s. s;
  calc_retry_time = λ try s. a.retry_at try;
  url_string = a.url_string;
  now = λ s. pos 0;
  now_later = λ s. pos 0;
  jitter = λ s. 0;
}

-- The last write has settled the URL, or left it to the health check.
abbrev pub IsSettled : {F : Type 0} → Answers F → List (Call F) → Type 0
IsSettled a [] = ⊥
IsSettled a (marks url status ∷ log) = (url ≡ a.url_string a.taken) × (a.marked status ≡ ok tt)
IsSettled a (retries url at ∷ log) =
    (url ≡ a.url_string a.taken) × (a.retried ≡ ok tt) × (a.retry_at a.taken.try ≡ some at)
IsSettled a (saves page ∷ log) = a.saved page ≡ err transient
IsSettled a (links parent id ∷ log) = a.linked ≡ err transient
IsSettled a (pushes urls ∷ log) = ⊥

-- The writes in front of a URL's done mark.
abbrev pub push_calls : {F : Type 0} → List Url → List (Call F) → List (Call F)
push_calls [] log = log
push_calls (u ∷ us) log = pushes (u ∷ us) ∷ log

abbrev pub link_calls : {F : Type 0} → String → ℕ → List (Call F) → List (Call F)
link_calls parent id log = if str_eq parent "" then log else links parent id ∷ log

-- The writes of a page that the extractor made, with the links it found.
abbrev pub AreSaved : {F : Type 0} → Url → Page F → List Url → GoResult ℕ → List (Call F) → Type 0
AreSaved url page urls (ok page_id) log =
    log ≡ push_calls urls (link_calls url.parent page_id (saves page ∷ []))
AreSaved url page urls (err e) log = ⊥
AreSaved url page urls panic log = ⊥

abbrev pub AreExtracted :
    {F : Type 0} → Answers F → GoResult (Page F × List Url) → List (Call F) → Type 0
AreExtracted a (ok (page, urls)) log = AreSaved a.taken page urls (a.saved page) log
AreExtracted a (err e) log = ⊥
AreExtracted a panic log = ⊥

-- All writes of a fetched URL.
abbrev pub AreWrites : {F : Type 0} → Answers F → GoResult FetchData → List (Call F) → Type 0
AreWrites a (ok fd) log = (fd.status ≡ FetchStatus.fetch_ok) × AreExtracted a (a.extracted fd) log
AreWrites a (err e) log = ⊥
AreWrites a panic log = ⊥

module _ {F : Type 0} (a : Answers F) (id : String) where
  -- When the last write of `Execute` marks a URL done, that is the URL taken, its fetch was ok, and
  -- the writes in front of the mark are exactly: the page that the extractor made of the content
  -- fetched, then the link from the URL's parent, if it has one, to the id that the insertion
  -- returned, then the push of the links that the extractor found, if there are any.
  pub execute_done :
      (url : String) (log : List (Call F))
      → (execute (scripted a) id []).1 ≡ marks url CrawlStatus.done ∷ log
      → (url ≡ a.url_string a.taken) × AreWrites a (a.fetched a.taken) log
  unfolding execute
  execute_done url log e = ground arith
