-- ===== src/Redis/Processing/Health.antt =====
-- The health check.
use oafse.Common.{
  ℕ, zero, suc, ◌+◌, ◌≡◌, String, Option, none, some, List, [], ◌∷◌, ◌∙◌, ap, ltb, refl, arith,
  eq_iff, count, str_eq, if◌then◌else◌, Bool, true, ◌&&◌,
}
use oafse.Common.Int.{ℤ, pos, negsuc, ◌-ℤ◌, int_leb}
use oafse.Storage.Model.{CrawlStatus}
use oafse.Redis.Info.{UrlInfo, queue}
use oafse.Redis.Api.{Redis}
use oafse.Redis.Scripts.{hget}
use oafse.Redis.Net.{ok, up, and_then}
use oafse.Redis.Processing.{Visit, is_stale, check_url, check_batch}
use oafse.Redis.Processing.Recover.{recovered_info, hget-recover, queue-recover}

-- Every request of the batch is answered.
abbrev pub AllAnswered : List Visit → Type 0
AllAnswered [] = Unit
AllAnswered (v ∷ vs) = (v.hget_link ≡ up) × (v.recover_link ≡ up) × AllAnswered vs

abbrev pub visits : String → List Visit → ℕ
visits u [] = 0
visits u (v ∷ vs) = (if str_eq v.url u then 1 else 0) + visits u vs

-- The health check takes back a URL whose record is missing or too old.
abbrev pub is_worrying : ℕ → ℕ → Option UrlInfo → Bool
is_worrying threshold now none = true
is_worrying threshold now (some info) = is_stale now threshold info.take_on_at

-- How many visits of the batch find the URL too old, if a worker took it at `taken`.
abbrev pub stale_visits : ℕ → String → ℤ → List Visit → ℕ
stale_visits threshold u taken [] = 0
stale_visits threshold u taken (v ∷ vs) =
    (if str_eq v.url u && is_stale v.now threshold taken then 1 else 0)
    + stale_visits threshold u taken vs

-- How many visits of the batch read the clock `threshold` milliseconds or more behind `taken`.
abbrev pub overdue_visits : ℕ → String → ℤ → List Visit → ℕ
overdue_visits threshold u taken [] = 0
overdue_visits threshold u taken (v ∷ vs) =
    (if str_eq v.url u && int_leb (pos threshold) (pos v.now -ℤ taken) then 1 else 0)
    + overdue_visits threshold u taken vs

is_stale-overdue :
    (now threshold : ℕ) (taken : ℤ)
    → is_stale now threshold taken ≡ int_leb (pos threshold) (pos now -ℤ taken)
is_stale-overdue now threshold (pos taken) = ground arith
is_stale-overdue now threshold (negsuc before) = ground arith

stale_visits-overdue :
    (threshold : ℕ) (u : String) (taken : ℤ) (vs : List Visit)
    → stale_visits threshold u taken vs ≡ overdue_visits threshold u taken vs
stale_visits-overdue threshold u taken [] = refl
stale_visits-overdue threshold u taken (v ∷ vs) =
    rw (is_stale-overdue v.now threshold taken, stale_visits-overdue threshold u taken vs) refl

-- The record after `n` recoveries.
abbrev pub recovered_times : ℕ → UrlInfo → UrlInfo
recovered_times zero info = info
recovered_times (suc n) info = record info { status = CrawlStatus.queued }

recovered_times-once :
    (n : ℕ) (info : UrlInfo)
    → recovered_times n info
      ≡ (if ltb 0 n then record info { status = CrawlStatus.queued } else info)
recovered_times-once zero info = ground arith
recovered_times-once (suc n) info = ground arith

-- One visit and the others, in one step.
recovered_more :
    (threshold : ℕ) (u : String) (v : Visit) (vs : List Visit) (info : UrlInfo)
    → let once = recovered_times (stale_visits threshold u info.take_on_at (v ∷ [])) info in
      some (recovered_times (stale_visits threshold u once.take_on_at vs) once)
      ≡ some (recovered_times (stale_visits threshold u info.take_on_at (v ∷ vs)) info)
recovered_more threshold u v vs info = ground arith

count_more :
    (threshold : ℕ) (u : String) (v : Visit) (vs : List Visit) (info : UrlInfo) (mid old : ℕ)
    → mid ≡ stale_visits threshold u info.take_on_at (v ∷ []) + old
    → let once = recovered_times (stale_visits threshold u info.take_on_at (v ∷ [])) info in
      stale_visits threshold u once.take_on_at vs + mid
      ≡ stale_visits threshold u info.take_on_at (v ∷ vs) + old
count_more threshold u v vs info mid old h = ground arith

module _ (r : Redis) (threshold : ℕ) where
  open r use {Store, contents}

  pub check_url_shows :
      (v : Visit) (u : String) (s : Store)
      → v.hget_link ≡ up
      → v.recover_link ≡ up
      → ((check_url r threshold v s).0 ≡ ok tt)
        × (hget r u (check_url r threshold v s).1 ≡ (
            if str_eq v.url u && is_worrying threshold v.now (hget r v.url s)
            then some (recovered_info (hget r v.url s))
            else hget r u s))
        × (count u ((contents (check_url r threshold v s).1).lists queue)
            ≡ (if str_eq v.url u && is_worrying threshold v.now (hget r v.url s) then 1 else 0)
              + count u ((contents s).lists queue))
  unfolding check_url
  check_url_shows v u s a b = (
    ground arith,
    ground (arith, hget-recover r v.url u s),
    ground (arith, queue-recover r v.url s),
  )

  check_url_recorded :
      (v : Visit) (u : String) (info : UrlInfo) (s : Store)
      → v.hget_link ≡ up
      → v.recover_link ≡ up
      → hget r u s ≡ some info
      → (hget r u (check_url r threshold v s).1
          ≡ some (recovered_times (stale_visits threshold u info.take_on_at (v ∷ [])) info))
        × (count u ((contents (check_url r threshold v s).1).lists queue)
            ≡ stale_visits threshold u info.take_on_at (v ∷ [])
              + count u ((contents s).lists queue))
  check_url_recorded v u info s a b h = ground (arith, check_url_shows v u s, eq_iff v.url u)

  pub check_batch-cons :
      (v : Visit) (vs : List Visit) (s : Store)
      → v.hget_link ≡ up
      → v.recover_link ≡ up
      → check_batch r threshold (v ∷ vs) s
        ≡ check_batch r threshold vs (check_url r threshold v s).1
  check_batch-cons v vs s a b =
      unfold check_batch in rw ((check_url_shows v v.url s a b).0, and_then)

  pub check_batch_recorded :
      (vs : List Visit) (u : String) (info : UrlInfo) (s : Store)
      → AllAnswered vs
      → hget r u s ≡ some info
      → ((check_batch r threshold vs s).0 ≡ ok tt)
        × (hget r u (check_batch r threshold vs s).1
            ≡ some (recovered_times (stale_visits threshold u info.take_on_at vs) info))
        × (count u ((contents (check_batch r threshold vs s).1).lists queue)
            ≡ stale_visits threshold u info.take_on_at vs + count u ((contents s).lists queue))
  check_batch_recorded [] u info s a h = unfold check_batch in (refl, h, omega arith)
  check_batch_recorded (v ∷ vs) u info s a h =
      let (seen, queued) = check_url_recorded v u info s a.0 a.1 h in
      let (done, record_after, queue_after) =
        check_batch_recorded vs u
          (recovered_times (stale_visits threshold u info.take_on_at (v ∷ [])) info)
          (check_url r threshold v s).1 a.2 seen in
      rw (check_batch-cons v vs s a.0 a.1) (
        done,
        record_after ∙ recovered_more threshold u v vs info,
        queue_after
            ∙ count_more threshold u v vs info
                (count u ((contents (check_url r threshold v s).1).lists queue))
                (count u ((contents s).lists queue)) queued,
      )

  -- One batch of the health check whose requests are all answered succeeds. Each URL with a record
  -- has been pushed to the queue as often as a visit read the clock at the threshold or more behind
  -- the time at which the record says a worker took it; its record has the queued status if there
  -- was such a visit, and is the same otherwise.
  pub check_batch_requeues :
      (vs : List Visit) (u : String) (info : UrlInfo) (s : Store)
      → AllAnswered vs
      → hget r u s ≡ some info
      → ((check_batch r threshold vs s).0 ≡ ok tt)
        × (hget r u (check_batch r threshold vs s).1
            ≡ some (
                if ltb 0 (overdue_visits threshold u info.take_on_at vs)
                then record info { status = CrawlStatus.queued }
                else info))
        × (count u ((contents (check_batch r threshold vs s).1).lists queue)
            ≡ overdue_visits threshold u info.take_on_at vs + count u ((contents s).lists queue))
  check_batch_requeues vs u info s a h =
      let (done, record_after, queue_after) = check_batch_recorded vs u info s a h in
      let same = stale_visits-overdue threshold u info.take_on_at vs in
      (
        done,
        record_after
            ∙ ap (λ n. some (recovered_times n info)) same
            ∙ ap some (recovered_times-once (overdue_visits threshold u info.take_on_at vs) info),
        queue_after ∙ ap (λ n. n + count u ((contents s).lists queue)) same,
      )
