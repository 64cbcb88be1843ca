-- ===== src/Redis/Reach/Retried.antt =====
-- How often a URL is retried.
use oafse.Common.{
  ℕ, ◌+◌, ◌≡◌, ◌≤◌, ◌<◌, ◌∙◌, String, some, refl, ap, arith, eq_iff, str_eq, if◌then◌else◌,
}
use oafse.Common.Int.{ℤ, pos, unix_milli}
use oafse.Domain.Retry.{CrawlConfig, calc_retry_time}
use oafse.Redis.Info.{queue, retry_queue}
use oafse.Redis.Db.{Db, get_last?, zmembers_upto}
use oafse.Redis.Api.{Redis}
use oafse.Redis.Scripts.{hget, push_url, pop_url, retry_url, mark_processed, recover, enqueue_urls}
use oafse.Redis.Scripts.Simulation.{
  observe-push_url, observe-pop_url, observe-retry_url, observe-mark_processed,
  contents-enqueue_urls,
}
use oafse.Redis.Processing.Recover.{hget-recover}
use oafse.Redis.Reach.{Step, Reach, pushes, takes, retries, marks, recovers, enqueues, here, next}
use oafse.Redis.Reach.Tries.{
  tries_of, tries_in, push-tries, pop_moved-tries, retry-tries, mark-tries, enqueue_due-tries,
}

module _ (r : Redis) (u : String) where
  open r use {Store, contents, before}

  abbrev pub retried : {s t : Store} → Step r s t → ℕ
  retried (retries url at held) = if str_eq url u then 1 else 0
  retried (pushes url parent) = 0
  retried (takes id now) = 0
  retried (marks url status held fin) = 0
  retried (recovers url held) = 0
  retried (enqueues now) = 0

  -- The retries of the URL on a path.
  abbrev pub retries_on : {s t : Store} → Reach r s t → ℕ
  retries_on here = 0
  retries_on (next path step) = retried step + retries_on path

  recovered-tries :
      (url : String) (n : ℕ) (s : Store)
      → tries_of (hget r u s) ≡ some n
      → tries_of (hget r u (recover r url s)) ≡ some n
  recovered-tries url n s h = ground (arith, hget-recover r url u s, h, eq_iff url u)

  -- From what Redis shows of the store.
  shown :
      (db : Db) (n : ℕ) (t : Store)
      → contents t ≡ db
      → tries_in u db ≡ some n
      → tries_of (hget r u t) ≡ some (0 + n)
  shown db n t e h = ap (tries_in u) e ∙ h ∙ ap some (omega arith)

  Step-tries :
      {s t : Store} (n : ℕ) (step : Step r s t)
      → tries_of (hget r u s) ≡ some n
      → tries_of (hget r u t) ≡ some (retried step + n)
  unfolding push_url pop_url retry_url mark_processed enqueue_urls
  Step-tries {s} n (pushes url parent) h =
      shown _ n _ (ap (λ o. o.1) (observe-push_url r url parent s))
        (push-tries before u n url parent (hget r url s) (contents s) refl h)
  Step-tries {s} n (takes id now) h =
      shown _ n _ (ap (λ o. o.1) (observe-pop_url r id now s))
        (pop_moved-tries before u n id now (get_last? ((contents s).lists queue)) (contents s) h)
  Step-tries {s} n (retries url at held) h =
      ap (λ o. tries_in u o.1) (observe-retry_url r url at s)
      ∙ retry-tries before u n url at (hget r url s) (contents s) refl h
  Step-tries {s} n (marks url status held fin) h =
      shown _ n _ (ap (λ o. o.1) (observe-mark_processed r url status s))
        (mark-tries before u n url status (hget r url s) (contents s) refl h)
  Step-tries {s} n (recovers url held) h = recovered-tries url n s h ∙ ap some (omega arith)
  Step-tries {s} n (enqueues now) h = shown _ n _ (contents-enqueue_urls r now s) (
      enqueue_due-tries before u n now (zmembers_upto now ((contents s).zsets retry_queue))
        (contents s) h)

  Reach-tries :
      {s t : Store} (n : ℕ) (path : Reach r s t)
      → tries_of (hget r u s) ≡ some n
      → tries_of (hget r u t) ≡ some (retries_on path + n)
  Reach-tries n here h = h ∙ ap some (omega arith)
  Reach-tries n (next path step) h =
      Step-tries (retries_on path + n) step (Reach-tries n path h) ∙ ap some (omega arith)

-- A retry is one that `CalcRetryTime` allows at the tries of the record, at the time that it gives.
abbrev pub IsAllowed : (r : Redis) → (ℕ → ℕ) → CrawlConfig → {s t : r.Store} → Step r s t → Type 0
IsAllowed r convert conf (retries {s} url at held) =
    (try : ℕ) × (tries_of (hget r url s) ≡ some try)
    × ((now retry_at : ℤ) × (calc_retry_time convert now try conf ≡ some retry_at)
        × (at ≡ unix_milli retry_at))
IsAllowed r convert conf (pushes url parent) = Unit
IsAllowed r convert conf (takes id now) = Unit
IsAllowed r convert conf (marks url status held fin) = Unit
IsAllowed r convert conf (recovers url held) = Unit
IsAllowed r convert conf (enqueues now) = Unit

abbrev pub AllAllowed : (r : Redis) → (ℕ → ℕ) → CrawlConfig → {s t : r.Store} → Reach r s t → Type 0
AllAllowed r convert conf here = Unit
AllAllowed r convert conf (next path step) =
    AllAllowed r convert conf path × IsAllowed r convert conf step

below_limit :
    (convert : ℕ → ℕ) (conf : CrawlConfig) (now retry_at : ℤ) (try lim : ℕ)
    → conf.try_lim ≡ pos lim
    → calc_retry_time convert now try conf ≡ some retry_at
    → try < lim
unfolding calc_retry_time
below_limit convert conf now retry_at try lim is_lim e = ground (arith, is_lim, e)

module _ (r : Redis) (u : String) (convert : ℕ → ℕ) (conf : CrawlConfig) (lim : ℕ)
    (is_lim : conf.try_lim ≡ pos lim) where
  open r use {Store, contents}

  Step-retried :
      {s t : Store} (n : ℕ) (step : Step r s t)
      → tries_of (hget r u s) ≡ some n
      → n ≤ lim
      → IsAllowed r convert conf step
      → retried r u step + n ≤ lim
  Step-retried {s} n (retries url at held) h low (try, e, (now, retry_at, allowed, same)) =
      ground (
        arith,
        below_limit convert conf now retry_at try lim is_lim allowed,
        e,
        h,
        low,
        eq_iff url u,
      )
  Step-retried n (pushes url parent) h low allowed = omega arith
  Step-retried n (takes id now) h low allowed = omega arith
  Step-retried n (marks url status held fin) h low allowed = omega arith
  Step-retried n (recovers url held) h low allowed = omega arith
  Step-retried n (enqueues now) h low allowed = omega arith

  -- Whatever scripts run, in any order, where RetryURL, MarkProcessed and RecoverURL run only for
  -- URLs that are in processing when they run, MarkProcessed with a final status, and each RetryURL
  -- at a time that `CalcRetryTime` gives for the tries of its record: the tries of a record grow by
  -- exactly the number of the URL's retries, and where TryLim is not negative and they are not
  -- beyond it at the start, they never are.
  pub Reach-retries :
      {s t : Store} (n : ℕ) (path : Reach r s t)
      → tries_of (hget r u s) ≡ some n
      → n ≤ lim
      → AllAllowed r convert conf path
      → (tries_of (hget r u t) ≡ some (retries_on r u path + n)) × (retries_on r u path + n ≤ lim)
  Reach-retries n path h low allowed = (Reach-tries r u n path h, bounded n path h low allowed)
    where
      bounded :
          {s t : Store} (n : ℕ) (path : Reach r s t)
          → tries_of (hget r u s) ≡ some n
          → n ≤ lim
          → AllAllowed r convert conf path
          → retries_on r u path + n ≤ lim
      bounded n here h low allowed = omega arith
      bounded n (next path step) h low (before, now) =
          let more =
            Step-retried (retries_on r u path + n) step (Reach-tries r u n path h)
              (bounded n path h low before) now in
          omega (arith, more)
