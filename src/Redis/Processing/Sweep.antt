-- ===== src/Redis/Processing/Sweep.antt =====
-- A health check that no other client disturbs and whose requests are all answered.
use oafse.Common.{
  ℕ, ◌+◌, ◌≡◌, ◌≢◌, ◌⊎◌, String, some, List, [], ◌∷◌, ◌∙◌, refl, arith, true, false, inl, inr, ap,
  count,
}
use oafse.Storage.Model.{CrawlStatus}
use oafse.Redis.Info.{UrlInfo, queue, processing_index}
use oafse.Redis.Api.{Redis}
use oafse.Redis.Scripts.{hget}
use oafse.Redis.Net.{ok}
use oafse.Common.Go.{and_then_ok}
use oafse.Redis.Placement.{queued_at, processing_at, status_of, AllPlaced}
use oafse.Redis.Reach.Place.{Reach-AllPlaced}
use oafse.Redis.Processing.{
  Visit, Scan, scan_failed, batch, is_stale, check_url, check_batch, health_check,
}
use oafse.Redis.Processing.Health.{
  AllAnswered, visits, stale_visits, recovered_times, check_batch_recorded, check_batch-cons,
}
use oafse.Redis.Processing.Ages.{
  AllBetween, recovered_append, count_append, stale_visits_all, stale_visits_none, stale_visits-le,
}
use oafse.Redis.Processing.Undisturbed.{visits_of, IsSweep, health_check-Reach}

-- Every request of the health check is answered.
abbrev pub AllReplied : List Scan → Type 0
AllReplied [] = Unit
AllReplied (scan_failed ∷ scans) = ⊥
AllReplied (batch vs ∷ scans) = AllAnswered vs × AllReplied scans

elsewhere : (status : CrawlStatus) → status ≢ CrawlStatus.processing → processing_at status ≡ 0
elsewhere CrawlStatus.unknown away = refl
elsewhere CrawlStatus.queued away = refl
elsewhere CrawlStatus.processing away = absurd (away refl)
elsewhere CrawlStatus.done away = refl
elsewhere CrawlStatus.manual away = refl
elsewhere CrawlStatus.give_up away = refl
elsewhere CrawlStatus.retry away = refl

module _ (r : Redis) (threshold : ℕ) where
  open r use {Store, contents}

  check_batch_ok :
      (vs : List Visit) (s : Store) → AllAnswered vs → (check_batch r threshold vs s).0 ≡ ok tt
  check_batch_ok [] s a = unfold check_batch in refl
  check_batch_ok (v ∷ vs) s a =
      rw (check_batch-cons r threshold v vs s a.0 a.1)
        (check_batch_ok vs (check_url r threshold v s).1 a.2)

  health_check-cons :
      (vs : List Visit) (scans : List Scan) (s : Store)
      → AllAnswered vs
      → health_check r threshold (batch vs ∷ scans) s
        ≡ health_check r threshold scans (check_batch r threshold vs s).1
  unfolding health_check
  health_check-cons vs scans s a =
      and_then_ok (check_batch r threshold vs s) tt (λ _ s'. health_check r threshold scans s')
        (check_batch_ok vs s a)

  health_check_ok :
      (scans : List Scan) (s : Store)
      → AllReplied scans
      → (health_check r threshold scans s).0 ≡ ok tt
  health_check_ok [] s a = unfold health_check in refl
  health_check_ok (scan_failed ∷ scans) s a = absurd a
  health_check_ok (batch vs ∷ scans) s (a, b) =
      rw (health_check-cons vs scans s a) (health_check_ok scans (check_batch r threshold vs s).1 b)

  health_check_requeues :
      (scans : List Scan) (u : String) (info : UrlInfo) (s : Store)
      → AllReplied scans
      → hget r u s ≡ some info
      → (hget r u (health_check r threshold scans s).1
          ≡ some
              (recovered_times (stale_visits threshold u info.take_on_at (visits_of scans)) info))
        × (count u ((contents (health_check r threshold scans s).1).lists queue)
            ≡ stale_visits threshold u info.take_on_at (visits_of scans)
              + count u ((contents s).lists queue))
  health_check_requeues [] u info s a h = unfold health_check in (h, omega arith)
  health_check_requeues (scan_failed ∷ scans) u info s a h = absurd a
  health_check_requeues (batch vs ∷ scans) u info s (a, b) h =
      let (done, seen, queued) = check_batch_recorded r threshold vs u info s a h in
      let t = (check_batch r threshold vs s).1 in
      let once = recovered_times (stale_visits threshold u info.take_on_at vs) info in
      let (record_after, queue_after) = health_check_requeues scans u once t b seen in
      rw (health_check-cons vs scans s a) (
        record_after ∙ ap some (recovered_append threshold u vs (visits_of scans) info),
        queue_after
            ∙ count_append threshold u vs (visits_of scans) info
                (count u ((contents t).lists queue)) (count u ((contents s).lists queue)) queued,
      )

  -- What the replies of one health check show.
  pub record IsFullSweep (start stop : ℕ) (scans : List Scan) (s : Store) : Type 0 where
    pub answered : AllReplied scans
    pub complete :
        (u : String) → visits u (visits_of scans) ≡ count u ((contents s).sets processing_index)
    pub clock : AllBetween start stop (visits_of scans)

  IsFullSweep-IsSweep :
      (start stop : ℕ) (scans : List Scan) (s : Store)
      → AllPlaced (contents s)
      → IsFullSweep start stop scans s
      → IsSweep r (visits_of scans) s
  IsFullSweep-IsSweep start stop scans s placed full = record {
    once = λ u. ground (arith, full.complete u, placed u);
    held = λ u more. ground (arith, full.complete u, placed u, more);
  }

  -- A URL that no visit finds too old, and one that a single visit does.
  untouched :
      (scans : List Scan) (u : String) (info : UrlInfo) (s : Store)
      → AllReplied scans
      → hget r u s ≡ some info
      → stale_visits threshold u info.take_on_at (visits_of scans) ≡ 0
      → (hget r u (health_check r threshold scans s).1 ≡ some info)
        × (count u ((contents (health_check r threshold scans s).1).lists queue)
            ≡ count u ((contents s).lists queue))
  untouched scans u info s a h none_stale =
      let (record_after, queue_after) = health_check_requeues scans u info s a h in
      (
        record_after ∙ ap (λ n. some (recovered_times n info)) none_stale,
        omega (arith, queue_after, none_stale),
      )

  requeued :
      (scans : List Scan) (u : String) (info : UrlInfo) (s : Store)
      → AllReplied scans
      → hget r u s ≡ some info
      → stale_visits threshold u info.take_on_at (visits_of scans) ≡ 1
      → count u ((contents s).lists queue) ≡ 0
      → (hget r u (health_check r threshold scans s).1
          ≡ some (record info { status = CrawlStatus.queued }))
        × (count u ((contents (health_check r threshold scans s).1).lists queue) ≡ 1)
  requeued scans u info s a h one_stale absent =
      let (record_after, queue_after) = health_check_requeues scans u info s a h in
      (
        record_after ∙ ap (λ n. some (recovered_times n info)) one_stale,
        omega (arith, queue_after, one_stale, absent),
      )

  -- How often the sweep visits a URL with a record.
  visits_held :
      (start stop : ℕ) (scans : List Scan) (s : Store) (u : String) (info : UrlInfo)
      → AllPlaced (contents s)
      → IsFullSweep start stop scans s
      → hget r u s ≡ some info
      → (visits u (visits_of scans) ≡ processing_at info.status)
        × (count u ((contents s).lists queue) ≡ queued_at info.status)
  visits_held start stop scans s u info placed full h = (
    full.complete u ∙ (placed u).in_index ∙ ap (λ o. processing_at (status_of o)) h,
    (placed u).in_queue ∙ ap (λ o. queued_at (status_of o)) h,
  )

  -- A health check that no other client disturbs, whose requests are all answered, and whose
  -- replies to SSCAN name each member of the processing index once, where each URL has its place
  -- and the clock stands between `start` and `stop`: it succeeds, and each URL has its place again.
  -- A URL in processing that its worker took by the threshold before `start`, or earlier, then
  -- has the queued status, with the rest of its record as it was, and stands in the queue once.
  pub health_check_frees :
      (start stop : ℕ) (scans : List Scan) (s : Store) (u : String) (info : UrlInfo)
      → AllPlaced (contents s)
      → IsFullSweep start stop scans s
      → hget r u s ≡ some info
      → info.status ≡ CrawlStatus.processing
      → is_stale start threshold info.take_on_at ≡ true
      → let after = health_check r threshold scans s in
        (after.0 ≡ ok tt)
        × AllPlaced (contents after.1)
        × (hget r u after.1 ≡ some (record info { status = CrawlStatus.queued }))
        × (count u ((contents after.1).lists queue) ≡ 1)
  health_check_frees start stop scans s u info placed full h held stale =
      let visited = visits_held start stop scans s u info placed full h in
      let once =
        stale_visits_all threshold u info.take_on_at start stop (visits_of scans) full.clock stale
        ∙ visited.0
        ∙ ap processing_at held in
      let (record_after, queue_after) =
        requeued scans u info s full.answered h once (visited.1 ∙ ap queued_at held) in
      let path =
        health_check-Reach r threshold scans s
          (IsFullSweep-IsSweep start stop scans s placed full) in
      (
        health_check_ok scans s full.answered,
        Reach-AllPlaced r placed path,
        record_after,
        queue_after,
      )

  -- Such a health check leaves the record of a URL that is not in processing, or whose worker took
  -- it later than the threshold before `stop`, and does not push the URL.
  pub health_check_spares :
      (start stop : ℕ) (scans : List Scan) (s : Store) (u : String) (info : UrlInfo)
      → AllPlaced (contents s)
      → IsFullSweep start stop scans s
      → hget r u s ≡ some info
      → (info.status ≢ CrawlStatus.processing) ⊎ (is_stale stop threshold info.take_on_at ≡ false)
      → let after = health_check r threshold scans s in
        (hget r u after.1 ≡ some info)
        × (count u ((contents after.1).lists queue) ≡ count u ((contents s).lists queue))
  health_check_spares start stop scans s u info placed full h fresh =
      let visited = visits_held start stop scans s u info placed full h in
      let none_stale : stale_visits threshold u info.take_on_at (visits_of scans) ≡ 0 = elim fresh [
        | inl away ↦ omega (
          arith,
          stale_visits-le threshold u info.take_on_at (visits_of scans),
          visited.0,
          elsewhere info.status away,
        )
        | inr young ↦
            stale_visits_none threshold u info.take_on_at start stop (visits_of scans) full.clock
              young
      ] in
      untouched scans u info s full.answered h none_stale
