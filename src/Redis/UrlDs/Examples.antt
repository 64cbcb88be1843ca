-- ===== src/Redis/UrlDs/Examples.antt =====
-- A health check that takes one URL back.
use oafse.Common.{
  ◌≡◌, ◌≢◌, ◌↔◌, String, true, none, some, List, [], ◌∷◌, refl, arith, count, length, eq_iff,
}
use oafse.Common.Int.{pos, negsuc}
use oafse.Storage.Model.{CrawlStatus}
use oafse.Redis.Info.{UrlInfo, queue, retry_queue}
use oafse.Redis.Db.{Db}
use oafse.Redis.Api.{Redis, reference}
use oafse.Redis.Scripts.{hget, push_url, pop_url}
use oafse.Redis.Net.{ok, up, request_lost, Link}
use oafse.Redis.Placement.{AllPlaced, status_of}
use oafse.Redis.Reach.{here, next, pushes, takes}
use oafse.Redis.Reach.Place.{Reach-AllPlaced}
use oafse.Redis.Processing.{Visit, Scan, batch, health_check}
use oafse.Redis.Processing.Undisturbed.{visits_of, IsSweep}
use oafse.Redis.Processing.Sweep.{IsFullSweep, health_check_frees}
use oafse.Redis.UrlDs.Checking.{Tick, Checked, starts, acts, on_tick, on_tick_lem}

abbrev server : Redis
server = reference (λ a b. true)

abbrev empty : Db
empty = record { lists = λ k. []; hashes = λ k u. none; sets = λ k. []; zsets = λ k. [] }

empty-AllPlaced : AllPlaced empty
empty-AllPlaced u = omega arith

-- One URL, pushed and then taken by worker 7 at time 100.
abbrev pushed : Db
pushed = (push_url server "https://a.org" "" empty).1

abbrev taken : Db
taken = (pop_url server "7" 100 pushed).1

abbrev info : UrlInfo
info = record {
  status = CrawlStatus.processing;
  worker_id = "7";
  take_on_at = pos 100;
  try = 0;
  retry_at = negsuc 0;
  parent = some "";
}

taken-AllPlaced : AllPlaced taken
taken-AllPlaced =
    Reach-AllPlaced server empty-AllPlaced
      (next (next here (pushes "https://a.org" "")) (takes "7" 100))

abbrev visit : Link → Visit
visit link = record { url = "https://a.org"; now = 500; hget_link = up; recover_link = link }

abbrev scans : Link → List Scan
scans link = batch [] ∷ batch (visit link ∷ []) ∷ []

full : IsFullSweep server 15 400 600 (scans up) taken
unfolding pop_url push_url
full = record {
  answered = (tt, ((refl, refl, tt), tt));
  complete = λ u. ground (arith, eq_iff "https://a.org" u);
  clock = (omega arith, omega arith, tt);
}

health_check_frees_example :
    let after = health_check server 15 (scans up) taken in
    (after.0 ≡ ok tt)
    × AllPlaced after.1
    × (hget server "https://a.org" after.1 ≡ some (record info { status = CrawlStatus.queued }))
    × (count "https://a.org" (after.1.lists queue) ≡ 1)
unfolding pop_url push_url
health_check_frees_example =
    health_check_frees server 15 400 600 (scans up) taken "https://a.org" info taken-AllPlaced full
      refl refl refl

-- The request for the recovery is lost.
abbrev tick : Tick
tick = record { scans = scans request_lost; queue_link = up; retry_link = up }

abbrev begun : Db → Checked Db
begun db = record { store = db; depths = record { queue_depth = 0; retry_queue_depth = 0 } }

sweep : IsSweep server (visits_of tick.scans) taken
unfolding pop_url push_url
sweep = record {
  once = λ u. ground arith;
  held = λ u more. ground (arith, eq_iff "https://a.org" u);
}

on_tick_lem_example :
    let after = on_tick server 15 tick (begun taken) in
    AllPlaced after.store
    × (after.depths.queue_depth ≡ length (after.store.lists queue))
    × (after.depths.retry_queue_depth ≡ length (after.store.zsets retry_queue))
    × ((after.depths.queue_depth ≡ 0)
        ↔ ((url : String) → status_of (hget server url after.store) ≢ CrawlStatus.queued))
    × ((after.depths.retry_queue_depth ≡ 0)
        ↔ ((url : String) → status_of (hget server url after.store) ≢ CrawlStatus.retry))
on_tick_lem_example =
    on_tick_lem server 15 {start = begun empty} {w = begun taken} tick empty-AllPlaced
      (acts (acts starts (pushes "https://a.org" "")) (takes "7" 100)) sweep refl refl
