-- ===== src/UseCase/Parse/Counted.antt =====
-- What `Execute` counts in `FetchAttempts`.
use oafse.Common.{◌≡◌, ◌≢◌, String, Option, List, [], ◌∷◌}
use oafse.Domain.Url.{Url}
use oafse.Common.Go.{GoResult, ok, err, panic}
use oafse.Domain.Status.{CrawlStatus}
use oafse.Port.Fetch.{FetchStatus, FetchData}
use oafse.Port.Crawl.{CrawlPorts, ParseCmd}
use oafse.Metrics.{
  AttemptStatus, status_ok, status_retry, status_impossible, status_give_up, status_manual,
}
use oafse.UseCase.Parse.{give_up}
use oafse.UseCase.Parse.Outcome.{Answers, Call, marks, retries, saves, links, pushes, scripted}

-- A world with the counter, the latest label first.
abbrev pub Counted : Type 0 → Type 0
Counted S = S × List AttemptStatus

abbrev on_left : {S A : Type 0} → Counted S → A × S → A × Counted S
on_left w x = (x.0, (x.1, w.1))

abbrev pub counted : {S F : Type 0} → CrawlPorts S F → CrawlPorts (Counted S) F
counted p = record {
  take_on = λ id w. on_left w (p.take_on id w.0);
  push_urls = λ urls w. on_left w (p.push_urls urls w.0);
  retry_url = λ url at w. on_left w (p.retry_url url at w.0);
  mark_processed = λ url status w. on_left w (p.mark_processed url status w.0);
  get_crawl_metadata = λ w. on_left w (p.get_crawl_metadata w.0);
  save_page = λ page w. on_left w (p.save_page page w.0);
  save_link = λ parent id w. on_left w (p.save_link parent id w.0);
  fetch = λ url w. on_left w (p.fetch url w.0);
  extract = λ fd w. on_left w (p.extract fd w.0);
  count_attempt = λ label w. (p.count_attempt label w.0, label ∷ w.1);
  calc_retry_time = λ try w. p.calc_retry_time try w.0;
  url_string = p.url_string;
  now = λ w. p.now w.0;
  now_later = λ w. p.now_later w.0;
  jitter = λ w. p.jitter w.0;
}

-- Whether a URL is given up for its page or for an error.
abbrev pub give_up_label : GoResult FetchData → AttemptStatus
give_up_label (err e) = status_give_up
give_up_label panic = status_give_up
give_up_label (ok fd) = elim fd.status [
  | FetchStatus.fetch_impossible ↦ status_impossible
  | _ ↦ status_give_up
]

-- The label of a mark.
abbrev pub labels_of_mark : {F : Type 0} → Answers F → CrawlStatus → List AttemptStatus
labels_of_mark a CrawlStatus.done = status_ok ∷ []
labels_of_mark a CrawlStatus.manual = status_manual ∷ []
labels_of_mark a CrawlStatus.give_up = give_up_label (a.fetched a.taken) ∷ []
labels_of_mark a _ = []

-- The labels for the last write of a run.
abbrev pub labels_of : {F : Type 0} → Answers F → List (Call F) → List AttemptStatus
labels_of a [] = []
labels_of a (marks url status ∷ log) = labels_of_mark a status
labels_of a (retries url at ∷ log) = status_retry ∷ []
labels_of a (saves page ∷ log) = []
labels_of a (links parent id ∷ log) = []
labels_of a (pushes urls ∷ log) = []

module _ {F : Type 0} (a : Answers F) (id : String) where
  abbrev Q : CrawlPorts (Counted (List (Call F))) F
  Q = counted (scripted a)

  abbrev Run : Type 0
  Run = GoResult (Option ParseCmd) × Counted (List (Call F))

  abbrev CountsWell : Run → Type 0
  CountsWell x = x.0 ≢ panic → x.1.1 ≡ labels_of a x.1.0
