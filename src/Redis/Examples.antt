-- ===== src/Redis/Examples.antt =====
-- The theorems about the Redis store at small databases of the reference server.
use oafse.Common.{
  ℕ, suc, ltb, ◌+◌, ◌≡◌, ◌↔◌, String, true, none, some, List, [], ◌∷◌, refl, arith, count, str_eq,
  if◌then◌else◌,
}
use oafse.Common.Int.{pos, negsuc}
use oafse.Storage.Model.{CrawlStatus, UrlCache}
use oafse.Redis.Info.{UrlInfo, queue, processing_index, retry_queue, worker}
use oafse.Redis.Db.{Db}
use oafse.Redis.Counts.{zcount}
use oafse.Redis.Api.{Redis, reference}
use oafse.Redis.Scripts.{hget, push_url, pop_url, mark_processed, pushed_info}
use oafse.Redis.Placement.{AllPlaced, IsPlaced, IsFinal, status_of}
use oafse.Redis.Reach.{Reach, here, next, pushes, takes, marks}
use oafse.Redis.Frontier.{frontier, Allows, take}
use oafse.Redis.Frontier.Refines.{Step-Allows}
use oafse.Redis.Frontier.Finished.{Reach-finished_stays}
use oafse.Redis.Processing.Lost.{retry_lost_given_up}
use oafse.Redis.Reach.Earliest.{Earliest, get_crawl_metadata-Earliest}
use oafse.Redis.Reach.Place.{Reach-AllPlaced}
use oafse.Redis.Net.{ok, err, panic, up, reply_lost, Error}
use oafse.Redis.Queue.{queue_take_on, push_urls, push_each}
use oafse.Redis.Queue.Push.{push_urls_once, is_known, url_count}
use oafse.Redis.Queue.Take.{queue_take_on_oldest}
use oafse.Redis.Queue.Loss.{queue_take_on_unrecorded, recover_url_orphan}
use oafse.Redis.Processing.{
  processing_mark_processed, processing_retry_url, check_url, check_batch, recover_url, Visit,
}
use oafse.Redis.Processing.Finish.{mark_processed_recorded, marked_info, retried_info}
use oafse.Redis.Processing.Late.{recover_url_marked, check_url_marked}
use oafse.Redis.Processing.Health.{check_batch_requeues, overdue_visits}
use oafse.Redis.UrlDs.{get_crawl_metadata}
use oafse.Redis.UrlDs.Metadata.{get_crawl_metadata_finished}

abbrev server : Redis
server = reference (λ a b. true)

abbrev empty : Db
empty = record { lists = λ k. []; hashes = λ k u. none; sets = λ k. []; zsets = λ k. [] }

empty-AllPlaced : AllPlaced empty
empty-AllPlaced u = omega arith

-- One URL, pushed and then taken by worker 7 at time 100.
abbrev pushed : Db
pushed = (push_url server "https://a.org" "" empty).1

abbrev taken : Db
taken = (pop_url server "7" 100 pushed).1

Reach-taken : Reach server empty taken
Reach-taken = next (next here (pushes "https://a.org" "")) (takes "7" 100)

Reach-AllPlaced_example : AllPlaced taken
Reach-AllPlaced_example = Reach-AllPlaced server empty-AllPlaced Reach-taken

abbrev info : UrlInfo
info = record {
  status = CrawlStatus.processing;
  worker_id = "7";
  take_on_at = pos 100;
  try = 0;
  retry_at = negsuc 0;
  parent = some "";
}

taken-info : hget server "https://a.org" taken ≡ some info
unfolding push_url pop_url
taken-info = refl

get_crawl_metadata_finished_example :
    (◌≡◌ {A = ℕ} 1 0) ↔ ((url : String) → IsFinal (status_of (hget server url taken)))
unfolding push_url pop_url get_crawl_metadata
get_crawl_metadata_finished_example =
    get_crawl_metadata_finished server taken
      (record { unprocessed_count = 1; earliest_retry = none }) Reach-AllPlaced_example refl

abbrev both : List UrlCache
both =
    record { url = "https://a.org"; parent = ""; try = 0 }
    ∷ record { url = "https://b.org"; parent = ""; try = 0 }
    ∷ record { url = "https://b.org"; parent = ""; try = 0 }
    ∷ []

push_urls_once_example :
    (url_count "https://b.org" (push_each server both pushed).0 ≡ 1)
    × (is_known (hget server "https://b.org" (push_each server both pushed).1) ≡ true)
unfolding push_url push_urls
push_urls_once_example =
    push_urls_once server both (push_each server both pushed).0 pushed
      (push_each server both pushed).1 "https://b.org" refl

queue_take_on_oldest_example :
    ((queue_take_on server up "7" 100 pushed).0
      ≡ ok (record { url = "https://a.org"; parent = ""; try = 0 }))
    × ((queue_take_on server up "7" 100 pushed).1.lists queue ≡ [])
    × ((queue_take_on server up "7" 100 pushed).1.lists (worker "7") ≡ "https://a.org" ∷ [])
    × ((u : String)
        → hget server u (queue_take_on server up "7" 100 pushed).1
          ≡ (if str_eq "https://a.org" u then some info else hget server u pushed))
unfolding push_url
queue_take_on_oldest_example =
    queue_take_on_oldest server "7" 100 pushed [] "https://a.org" "" (pushed_info (some "") 0) refl
      refl refl

mark_processed_recorded_example :
    ((processing_mark_processed server up "https://a.org" CrawlStatus.done taken).0 ≡ ok tt)
    × ((u : String)
        → hget server u
            (processing_mark_processed server up "https://a.org" CrawlStatus.done taken).1
          ≡ (if str_eq "https://a.org" u
              then some (marked_info CrawlStatus.done info)
              else hget server u taken))
    × (count "https://a.org" (
          (processing_mark_processed server up "https://a.org" CrawlStatus.done taken).1.sets
            processing_index)
        ≡ 0)
mark_processed_recorded_example =
    mark_processed_recorded server "https://a.org" taken CrawlStatus.done info taken-info

-- The scan reports the URL twice, and both visits find it too old.
abbrev twice : List Visit
twice =
    record { url = "https://a.org"; now = 500; hget_link = up; recover_link = up }
    ∷ record { url = "https://a.org"; now = 501; hget_link = up; recover_link = up }
    ∷ []

check_batch_requeues_example :
    ((check_batch server 15 twice taken).0 ≡ ok tt)
    × (hget server "https://a.org" (check_batch server 15 twice taken).1
        ≡ some (
            if ltb 0 (overdue_visits 15 "https://a.org" info.take_on_at twice)
            then record info { status = CrawlStatus.queued }
            else info))
    × (count "https://a.org" ((check_batch server 15 twice taken).1.lists queue)
        ≡ overdue_visits 15 "https://a.org" info.take_on_at twice
          + count "https://a.org" (taken.lists queue))
check_batch_requeues_example =
    check_batch_requeues server 15 twice "https://a.org" info taken (refl, refl, (refl, refl, tt))
      taken-info

-- The URL stands in the queue, and its record is gone.
abbrev unrecorded : Db
unrecorded = record empty { lists = λ k. elim k [ queue ↦ "https://a.org" ∷ [] | _ ↦ [] ] }

queue_take_on_unrecorded_example :
    ((queue_take_on server up "7" 100 unrecorded).0 ≡ err Error.script)
    × ((queue_take_on server up "7" 100 unrecorded).1.lists queue ≡ [])
    × ((queue_take_on server up "7" 100 unrecorded).1.lists (worker "7") ≡ "https://a.org" ∷ [])
    × ((queue_take_on server up "7" 100 unrecorded).1.sets processing_index ≡ [])
    × (hget server "https://a.org" (queue_take_on server up "7" 100 unrecorded).1 ≡ none)
queue_take_on_unrecorded_example =
    queue_take_on_unrecorded server "7" 100 unrecorded [] "https://a.org" refl refl

recover_url_orphan_example :
    ((recover_url server up "https://a.org" empty).0 ≡ ok tt)
    × ((queue_take_on server up "7" 100 (recover_url server up "https://a.org" empty).1).0 ≡ panic)
recover_url_orphan_example = recover_url_orphan server "7" 100 empty "https://a.org" refl refl

get_crawl_metadata-Earliest_example :
    Earliest server
      (record { unprocessed_count = 1; earliest_retry = none })
      (taken.zsets retry_queue)
unfolding push_url pop_url get_crawl_metadata
get_crawl_metadata-Earliest_example =
    get_crawl_metadata-Earliest server (record { unprocessed_count = 1; earliest_retry = none }) tt
      Reach-taken refl

-- Worker 7 fails on the URL behind the health check.
recover_url_marked_example :
    let again = (recover_url server up "https://a.org" taken).1 in
    let marked = processing_mark_processed server up "https://a.org" CrawlStatus.give_up again in
    (marked.0 ≡ ok tt)
    × (hget server "https://a.org" marked.1 ≡ some (marked_info CrawlStatus.give_up info))
    × (count "https://a.org" (marked.1.lists queue)
        ≡ suc (count "https://a.org" (taken.lists queue)))
recover_url_marked_example =
    recover_url_marked server "https://a.org" taken CrawlStatus.give_up info taken-info

pushed-AllPlaced : AllPlaced pushed
pushed-AllPlaced = Reach-AllPlaced server empty-AllPlaced (next here (pushes "https://a.org" ""))

Step-Allows_example : Allows take (frontier server pushed) (frontier server taken)
Step-Allows_example = Step-Allows server {s = pushed} (takes "7" 100) pushed-AllPlaced

-- The URL is done, and then pushed once more.
abbrev finished : Db
finished = (mark_processed server "https://a.org" CrawlStatus.done taken).1

Reach-finished : Reach server empty finished
unfolding push_url pop_url
Reach-finished = next Reach-taken (marks "https://a.org" CrawlStatus.done refl (refl, refl, refl))

Reach-finished_stays_example :
    frontier server (push_url server "https://a.org" "" finished).1 "https://a.org"
    ≡ frontier server finished "https://a.org"
unfolding push_url pop_url mark_processed
Reach-finished_stays_example =
    Reach-finished_stays server "https://a.org" {s = finished}
      (Reach-AllPlaced server empty-AllPlaced Reach-finished)
      (next here (pushes "https://a.org" "")) (refl, refl, refl)

retry_lost_given_up_example :
    let again = processing_retry_url server reply_lost "https://a.org" (pos 900000000) taken in
    let marked = processing_mark_processed server up "https://a.org" CrawlStatus.give_up again.1 in
    (again.0 ≡ err Error.transport)
    × (marked.0 ≡ ok tt)
    × (hget server "https://a.org" marked.1
        ≡ some (marked_info CrawlStatus.give_up (retried_info (pos 900) info)))
    × (zcount "https://a.org" (marked.1.zsets retry_queue) ≡ 1)
    × ¬ IsPlaced [] marked.1 "https://a.org"
retry_lost_given_up_example =
    retry_lost_given_up server "https://a.org" taken (pos 900000000) info taken-info

-- The worker is done behind the scan of the health check.
abbrev late_visit : Visit
late_visit = record { url = "https://a.org"; now = 500; hget_link = up; recover_link = up }

check_url_marked_example :
    let marked = processing_mark_processed server up "https://a.org" CrawlStatus.done taken in
    let visited = check_url server 15 late_visit marked.1 in
    (marked.0 ≡ ok tt)
    × (visited.0 ≡ ok tt)
    × (hget server "https://a.org" visited.1 ≡ some (marked_info CrawlStatus.queued info))
    × (count "https://a.org" (visited.1.lists queue)
        ≡ suc (count "https://a.org" (taken.lists queue)))
check_url_marked_example =
    check_url_marked server "https://a.org" taken CrawlStatus.done info 15 late_visit taken-info
      refl refl refl refl
