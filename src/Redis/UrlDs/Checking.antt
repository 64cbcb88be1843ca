-- ===== src/Redis/UrlDs/Checking.antt =====
-- url_ds.go: the goroutine of `StartHealthChecking`. A panic starts the same loop once more; the
-- context's end is the end of the ticks.
use oafse.Common.{ℕ, ◌≡◌, ◌≢◌, ◌↔◌, String, List, refl, length, sym, subst, ◌∙◌}
use oafse.Redis.Info.{queue, retry_queue}
use oafse.Redis.Api.{Redis}
use oafse.Redis.Net.{Link, up, request_lost, reply_lost, call, GoResult, ok, err, panic}
use oafse.Storage.Model.{CrawlStatus}
use oafse.Redis.Scripts.{hget}
use oafse.Redis.Placement.{AllPlaced, status_of}
use oafse.Redis.UrlDs.Metadata.{queue_empty_iff, retry_queue_empty_iff}
use oafse.Redis.Reach.{Step}
use oafse.Redis.Reach.Place.{Reach-AllPlaced, Step-AllPlaced}
use oafse.Redis.Processing.{Scan, health_check}
use oafse.Redis.Processing.Undisturbed.{visits_of, IsSweep, health_check-Reach}

-- What the environment decides about one tick.
pub record Tick : Type 0 where
  pub scans : List Scan
  pub queue_link : Link
  pub retry_link : Link

-- The gauges QueueDepth and RetryQueueDepth.
pub record Depths : Type 0 where
  pub queue_depth : ℕ
  pub retry_queue_depth : ℕ

-- The goroutine and the server.
pub record Checked (S : Type 0) : Type 0 where
  pub store : S
  pub depths : Depths

-- `if n, err := …; err == nil { gauge.Set(float64(n)) }`
abbrev pub set_to : GoResult ℕ → ℕ → ℕ
set_to (ok n) old = n
set_to (err e) old = old
set_to panic old = old

-- A request that only reads.
reads : {S A : Type 0} (link : Link) (f : S → A) (s : S) → (call link (λ s'. (f s', s')) s).1 ≡ s
reads up f s = refl
reads request_lost f s = refl
reads reply_lost f s = refl

module _ (r : Redis) where
  open r use {Store, contents}

  unfoldable pub update_queue_depth_metrics : Link → Link → Checked Store → Checked Store
  update_queue_depth_metrics queue_link retry_link w =
      let (llen, s) = call queue_link (λ s. (length ((contents s).lists queue), s)) w.store in
      let (zcard, t) = call retry_link (λ s. (length ((contents s).zsets retry_queue), s)) s in
      record {
        store = t;
        depths = record {
          queue_depth = set_to llen w.depths.queue_depth;
          retry_queue_depth = set_to zcard w.depths.retry_queue_depth;
        };
      }

  module _ (threshold : ℕ) where
    -- The error of the health check is dropped.
    unfoldable pub on_tick : Tick → Checked Store → Checked Store
    unfolding update_queue_depth_metrics
    on_tick tick w =
        update_queue_depth_metrics tick.queue_link tick.retry_link
          (record w { store = (health_check r threshold tick.scans w.store).1 })

    -- Ticks and the scripts of other clients, one after the other.
    pub data History (start : Checked Store) : Checked Store → Type 0 where
      starts : History start start
      acts :
          {w : Checked Store} {t : Store}
          → History start w
          → Step r w.store t
          → History start (record w { store = t })
      ticks :
          {w : Checked Store}
          → History start w
          → (tick : Tick) → IsSweep r (visits_of tick.scans) w.store
          → History start (on_tick tick w)

    on_tick-store :
        (tick : Tick) (w : Checked Store)
        → (on_tick tick w).store ≡ (health_check r threshold tick.scans w.store).1
    unfolding on_tick update_queue_depth_metrics
    on_tick-store tick w =
        let s = (health_check r threshold tick.scans w.store).1 in
        reads tick.retry_link (λ s. length ((contents s).zsets retry_queue)) _
        ∙ reads tick.queue_link (λ s. length ((contents s).lists queue)) s

    History-AllPlaced :
        {start w : Checked Store}
        → AllPlaced (contents start.store)
        → History start w
        → AllPlaced (contents w.store)
    History-AllPlaced p starts = p
    History-AllPlaced p (acts history step) = Step-AllPlaced r step (History-AllPlaced p history)
    History-AllPlaced p (ticks {w} history tick sweep) =
        subst (λ s. AllPlaced (contents s)) (sym (on_tick-store tick w))
          (Reach-AllPlaced r (History-AllPlaced p history)
            (health_check-Reach r threshold tick.scans w.store sweep))

    depths :
        (tick : Tick) (w : Checked Store)
        → tick.queue_link ≡ up
        → tick.retry_link ≡ up
        → let after = on_tick tick w in
          (after.depths.queue_depth ≡ length ((contents after.store).lists queue))
          × (after.depths.retry_queue_depth ≡ length ((contents after.store).zsets retry_queue))
    unfolding on_tick update_queue_depth_metrics
    depths tick w a b = (rw (a, b) refl, rw (a, b) refl)

    -- From a store in which each URL has its place, through ticks of the health check and scripts of
    -- other clients in any order, where RetryURL, MarkProcessed and RecoverURL run only for URLs in
    -- processing, MarkProcessed with a final status only, and no script stands inside a health
    -- check, each of which visits URLs in processing only and each of them once at most, whatever
    -- of its requests fail: after one more such tick whose two requests for the depths are answered,
    -- each URL has its place, the gauges show the lengths of the queue and of the retry queue, the
    -- one shows 0 exactly if no URL is queued, and the other exactly if none waits for a retry.
    pub on_tick_lem :
        {start w : Checked Store} (tick : Tick)
        → AllPlaced (contents start.store)
        → History start w
        → IsSweep r (visits_of tick.scans) w.store
        → tick.queue_link ≡ up
        → tick.retry_link ≡ up
        → let after = on_tick tick w in
          AllPlaced (contents after.store)
          × (after.depths.queue_depth ≡ length ((contents after.store).lists queue))
          × (after.depths.retry_queue_depth ≡ length ((contents after.store).zsets retry_queue))
          × ((after.depths.queue_depth ≡ 0)
              ↔ ((url : String) → status_of (hget r url after.store) ≢ CrawlStatus.queued))
          × ((after.depths.retry_queue_depth ≡ 0)
              ↔ ((url : String) → status_of (hget r url after.store) ≢ CrawlStatus.retry))
    on_tick_lem {w = w} tick p history sweep a b =
        let placed = History-AllPlaced p (ticks history tick sweep) in
        let after = on_tick tick w in
        let (queued, retried) = depths tick w a b in
        (
          placed,
          queued,
          retried,
          rw queued (queue_empty_iff r after.store placed),
          rw retried (retry_queue_empty_iff r after.store placed),
        )
