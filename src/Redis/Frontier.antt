-- ===== src/Redis/Frontier.antt =====
-- What the scripts promise together: a map from URLs to statuses, and what each call may do to it.
-- The order of the queue, the workers, the tries and the times are forgotten.
pub mod Refines
pub mod Finished
use oafse.Common.{
  ◌≡◌, ◌≢◌, ◌⊎◌, String, Bool, true, false, ◌&&◌, Option, none, some, if◌then◌else◌, str_eq, ap,
}
use oafse.Storage.Model.{CrawlStatus}
use oafse.Redis.Info.{UrlInfo}
use oafse.Redis.Api.{Redis}
use oafse.Redis.Scripts.{hget}
use oafse.Redis.Placement.{IsFinal, status_of}
use oafse.Redis.Reach.{Step, pushes, takes, retries, marks, recovers, enqueues}

-- `none` is a URL that was never seen.
abbrev pub Frontier : Type 0
Frontier = String → Option CrawlStatus

abbrev pub recorded_status : Option UrlInfo → Option CrawlStatus
recorded_status none = none
recorded_status (some info) = some info.status

abbrev pub is_new : Option CrawlStatus → Bool
is_new none = true
is_new (some status) = false

pub data Call : Type 0 where
  push : String → Call
  take : Call
  retry : String → Call
  mark : String → CrawlStatus → Call
  recover : String → Call
  enqueue : Call

-- `g` is `f` with the status at `url`.
abbrev pub Sets : Frontier → Frontier → String → CrawlStatus → Type 0
Sets f g url status = (u : String) → g u ≡ (if str_eq url u then some status else f u)

-- `take` hands out one queued URL where there is one; `enqueue` releases some of those that wait
-- for a retry, which depends on their times.
abbrev pub Allows : Call → Frontier → Frontier → Type 0
Allows (push url) f g =
    (u : String) → g u ≡ (if str_eq url u && is_new (f url) then some CrawlStatus.queued else f u)
Allows take f g =
    (((u : String) → f u ≢ some CrawlStatus.queued) × ((u : String) → g u ≡ f u))
    ⊎ ((url : String) × (f url ≡ some CrawlStatus.queued) × Sets f g url CrawlStatus.processing)
Allows (retry url) f g = Sets f g url CrawlStatus.retry
Allows (mark url status) f g = Sets f g url status
Allows (recover url) f g = Sets f g url CrawlStatus.queued
Allows enqueue f g =
    (released : String → Bool) × ((u : String) → released u ≡ true → f u ≡ some CrawlStatus.retry)
    × ((u : String) → g u ≡ (if released u then some CrawlStatus.queued else f u))

-- When a step makes the call: a retry, a mark and a recovery are of a URL in processing, and a mark
-- has a final status. The other calls are made at any time.
abbrev pub IsAsked : Call → Frontier → Type 0
IsAsked (push url) f = Unit
IsAsked take f = Unit
IsAsked (retry url) f = f url ≡ some CrawlStatus.processing
IsAsked (mark url status) f = (f url ≡ some CrawlStatus.processing) × IsFinal status
IsAsked (recover url) f = f url ≡ some CrawlStatus.processing
IsAsked enqueue f = Unit

module _ (r : Redis) where
  open r use {Store}

  -- The abstract view of a store, and of a step.
  abbrev pub frontier : Store → Frontier
  frontier s u = recorded_status (hget r u s)

  abbrev pub call_of : {s t : Store} → Step r s t → Call
  call_of (pushes url parent) = push url
  call_of (takes id now) = take
  call_of (retries url at st) = retry url
  call_of (marks url status st fin) = mark url status
  call_of (recovers url st) = recover url
  call_of (enqueues now) = enqueue

  of_processing :
      (o : Option UrlInfo)
      → status_of o ≡ CrawlStatus.processing
      → recorded_status o ≡ some CrawlStatus.processing
  of_processing none h = absurd (cc)
  of_processing (some info) h = ap some h

  pub Step-IsAsked : {s t : Store} (step : Step r s t) → IsAsked (call_of step) (frontier s)
  Step-IsAsked (pushes url parent) = tt
  Step-IsAsked (takes id now) = tt
  Step-IsAsked {s} (retries url at st) = of_processing (hget r url s) st
  Step-IsAsked {s} (marks url status st fin) = (of_processing (hget r url s) st, fin)
  Step-IsAsked {s} (recovers url st) = of_processing (hget r url s) st
  Step-IsAsked (enqueues now) = tt
