-- ===== src/UseCase/Parse/Traced.antt =====
-- A contract of `Execute` whose legal paths are also traced by what each call of a port does.
use oafse.Common.{ℕ, String, List}
use oafse.Common.Int.{ℤ}
use oafse.Common.Go.{
  GoResult, ok, err, panic, queue_empty, transport, script, info_not_found, bad_url, transient,
  fatal, not_text, content, embedding,
}
use oafse.Common.Runs.{Ends}
use oafse.Domain.Status.{CrawlStatus}
use oafse.Domain.Url.{Url}
use oafse.Domain.Page.{Page}
use oafse.Metrics.{AttemptStatus}
use oafse.Port.Fetch.{FetchData}
use oafse.Port.Crawl.{CrawlPorts}
use oafse.UseCase.Parse.{execute}
use oafse.UseCase.Parse.Kept.{execute-Ends}
use oafse.UseCase.Parse.Contract.{IsTerminal, EndsTake, Contract}

-- Each call of a port leaves a state that `Trace` relates to the one that it found.
pub record Traces {S F : Type 0} {p : CrawlPorts S F} {id : String} (c : Contract p id)
    (Trace : S → S → Type 0) : Type 0 where
  pub trans : (s t u : S) → Trace s t → Trace t u → Trace s u
  pub take_on : (s : S) → c.Quiet s → Trace s (p.take_on id s).1
  pub metadata : (s : S) → c.Quiet s → Trace s (p.get_crawl_metadata s).1
  pub count : (label : AttemptStatus) (s : S) → Trace s (p.count_attempt label s)
  pub mark :
      (u : Url) (status : CrawlStatus) (s : S)
      → c.Holds u s
      → IsTerminal status
      → Trace s (p.mark_processed (p.url_string u) status s).1
  pub retry :
      (u : Url) (at : ℤ) (s : S) → c.Holds u s → Trace s (p.retry_url (p.url_string u) at s).1
  pub push :
      (u : Url) (links : List Url) (s : S)
      → c.Holds u s
      → c.Pushable links
      → Trace s (p.push_urls links s).1
  pub save_page : (page : Page F) (s : S) → Trace s (p.save_page page s).1
  pub save_link : (parent : String) (id : ℕ) (s : S) → Trace s (p.save_link parent id s).1
  pub fetch : (u : Url) (s : S) → Trace s (p.fetch u s).1
  pub extract : (fd : FetchData) (s : S) → Trace s (p.extract fd s).1

module _ {S F : Type 0} {p : CrawlPorts S F} {id : String} (c : Contract p id)
    (Trace : S → S → Type 0) (traces : Traces c Trace) where
  abbrev pub Legal : S → S → Type 0
  Legal s t = c.Legal s t × Trace s t

  traced :
      {A : Type 0} (s : S) (E : S → Type 0) (P : A → S → Type 0) (x : GoResult A × S)
      → Ends (λ t. c.Legal s t × E t) (λ a t. c.Legal s t × P a t) x
      → Trace s x.1
      → Ends (λ t. Legal s t × E t) (λ a t. Legal s t × P a t) x
  traced s E P (ok a, t) (legal, h) step = ((legal, step), h)
  traced s E P (err e, t) (legal, h) step = ((legal, step), h)
  traced s E P (panic, t) h step = h

  take-traced :
      (s : S) (x : GoResult Url × S)
      → EndsTake
          (λ t. c.Legal s t × c.Valid t)
          (λ t. c.Legal s t × c.Quiet t)
          (λ u t. c.Legal s t × c.Holds u t)
          x
      → Trace s x.1
      → EndsTake
          (λ t. Legal s t × c.Valid t)
          (λ t. Legal s t × c.Quiet t)
          (λ u t. Legal s t × c.Holds u t)
          x
  take-traced s (ok u, t) (legal, h) step = ((legal, step), h)
  take-traced s (err queue_empty, t) (legal, h) step = ((legal, step), h)
  take-traced s (err transport, t) (legal, h) step = ((legal, step), h)
  take-traced s (err script, t) (legal, h) step = ((legal, step), h)
  take-traced s (err info_not_found, t) (legal, h) step = ((legal, step), h)
  take-traced s (err bad_url, t) (legal, h) step = ((legal, step), h)
  take-traced s (err transient, t) (legal, h) step = ((legal, step), h)
  take-traced s (err fatal, t) (legal, h) step = ((legal, step), h)
  take-traced s (err not_text, t) (legal, h) step = ((legal, step), h)
  take-traced s (err content, t) (legal, h) step = ((legal, step), h)
  take-traced s (err embedding, t) (legal, h) step = ((legal, step), h)
  take-traced s (panic, t) h step = h

  abbrev traced_contract : Contract p id
  traced_contract = record c {
    Legal = Legal;
    legal_trans = λ s t u (a, f) (b, g). (c.legal_trans s t u a b, traces.trans s t u f g);
    take_on_law = λ s q. take-traced s (p.take_on id s) (c.take_on_law s q) (traces.take_on s q);
    metadata_law = λ s q.
        traced s c.Valid (λ md. c.Finished) (p.get_crawl_metadata s) (c.metadata_law s q)
          (traces.metadata s q);
    count_held_law = λ u label s h.
        let (legal, held) = c.count_held_law u label s h in ((legal, traces.count label s), held);
    count_finished_law = λ label s h.
        let (legal, done) = c.count_finished_law label s h in ((legal, traces.count label s), done);
    mark_law = λ u status s h fin.
        traced s (c.Holds u) (λ _. c.Finished) (p.mark_processed (p.url_string u) status s)
          (c.mark_law u status s h fin) (traces.mark u status s h fin);
    retry_law = λ u at s h.
        traced s (c.Holds u) (λ _. c.Finished) (p.retry_url (p.url_string u) at s)
          (c.retry_law u at s h) (traces.retry u at s h);
    push_law = λ u links s h good.
        traced s (c.Holds u) (λ _. c.Holds u) (p.push_urls links s) (c.push_law u links s h good)
          (traces.push u links s h good);
    save_page_law = λ u page s h.
        traced s (λ t. c.Holds u t × c.Broken t) (λ _. c.Holds u) (p.save_page page s)
          (c.save_page_law u page s h) (traces.save_page page s);
    save_link_law = λ u parent page_id s h.
        traced s (λ t. c.Holds u t × c.Broken t) (λ _. c.Holds u) (p.save_link parent page_id s)
          (c.save_link_law u parent page_id s h) (traces.save_link parent page_id s);
    fetch_law =
        λ u s h. traced s (c.Holds u) _ (p.fetch u s) (c.fetch_law u s h) (traces.fetch u s);
    extract_law = λ u fd s h good.
        traced s (c.Holds u) _ (p.extract fd s) (c.extract_law u fd s h good) (traces.extract fd s);
  }

  -- Where the ports meet the contract, `Execute` also leaves a trace of its calls.
  pub execute_traced :
      (s : S)
      → c.Quiet s
      → Ends (λ t. Legal s t × c.Valid t) (λ _ t. Legal s t × c.Finished t) (execute p id s)
  execute_traced s q = execute-Ends p id traced_contract s q
