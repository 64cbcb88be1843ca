-- ===== src/Repo/Examples.antt =====
-- The theorems about the repositories at small databases.
use oafse.Common.{◌≡◌, String, some, none, [], ◌∷◌, refl, true, str_eq, if◌then◌else◌, count}
use oafse.Common.Go.{ok, err, Error}
use oafse.Domain.Status
use oafse.Domain.Url.{normalize}
use oafse.Samples.{net, parsed}
use oafse.Storage.Model.{CrawlStatus}
use oafse.Redis.Info.{queue, processing_index, url_status}
use oafse.Redis.Db.{Db}
use oafse.Redis.Api.{Redis, reference}
use oafse.Redis.Scripts.{hget, enqueue_urls, pushed_info}
use oafse.Redis.Processing.Finish.{marked_info}
use oafse.Redis.Net.{up}
use oafse.Repo.UrlRepo.{repo_take_on, repo_mark_processed}
use oafse.Repo.UrlRepo.Rounds.{
  IsNext, held_info, domain_form, repo_take_on_marked, repo_take_on_unmarked,
}

abbrev server : Redis
server = reference (λ a b. true)

-- A database with one URL, in the queue.
abbrev queued : String → Db
queued url = record {
  lists = λ k. elim k [ queue ↦ url ∷ [] | _ ↦ [] ];
  hashes = λ k u. elim k [
    | url_status ↦ if str_eq url u then some (pushed_info (some "") 0) else none
    | _ ↦ none
  ];
  sets = λ k. [];
  zsets = λ k. [];
}

lower-IsNext :
    IsNext net server "7" 100 101
      (queued "a.org")
      []
      "a.org"
      ""
      (pushed_info (some "") 0)
      (parsed "a.org")
unfolding enqueue_urls
lower-IsNext = (refl, refl, refl, refl)

repo_take_on_marked_example :
    let took = repo_take_on net server up up "7" 100 101 (queued "a.org") in
    let marked = repo_mark_processed net server up "a.org" Status.CrawlStatus.done took.1 in
    (took.0 ≡ ok (domain_form net (parsed "a.org") "" (pushed_info (some "") 0)))
    × (marked.0 ≡ ok tt)
    × (hget server "a.org" marked.1
        ≡ some (marked_info CrawlStatus.done (held_info "7" 101 (pushed_info (some "") 0))))
    × (count "a.org" (marked.1.sets processing_index) ≡ 0)
unfolding normalize
repo_take_on_marked_example =
    repo_take_on_marked net server "7" 100 101 (queued "a.org") [] "a.org" ""
      (pushed_info (some "") 0) (parsed "a.org") Status.CrawlStatus.done lower-IsNext refl

upper-IsNext :
    IsNext net server "7" 100 101
      (queued "A.org")
      []
      "A.org"
      ""
      (pushed_info (some "") 0)
      (parsed "A.org")
unfolding enqueue_urls
upper-IsNext = (refl, refl, refl, refl)

-- A seed in upper case.
repo_take_on_unmarked_example :
    let took = repo_take_on net server up up "7" 100 101 (queued "A.org") in
    let marked = repo_mark_processed net server up "a.org" Status.CrawlStatus.done took.1 in
    (took.0 ≡ ok (domain_form net (parsed "A.org") "" (pushed_info (some "") 0)))
    × (marked.0 ≡ err Error.script)
    × (hget server "A.org" marked.1 ≡ some (held_info "7" 101 (pushed_info (some "") 0)))
unfolding normalize enqueue_urls
repo_take_on_unmarked_example =
    repo_take_on_unmarked net server "7" 100 101 (queued "A.org") [] "A.org" ""
      (pushed_info (some "") 0) (parsed "A.org") Status.CrawlStatus.done upper-IsNext refl
