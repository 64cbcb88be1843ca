-- ===== src/Worker/Pool.antt =====
-- internal/delivery/worker/worker.go: the pool. `strconv.Itoa` is a parameter.
use oafse.Common.{
  ℕ, zero, suc, ◌+◌, ◌≡◌, String, Bool, true, false, ◌&&◌, List, [], ◌∷◌, count, ltb, leb,
  if◌then◌else◌, eq_iff, arith,
}
use oafse.Common.Go.{GoResult, ok, err, panic}
use oafse.Domain.Retry.{CrawlConfig}
use oafse.Worker.{Worker, running}

-- A worker with the id that it gives to `Execute`.
pub record Member : Type 0 where
  pub id : String
  pub worker : Worker

-- The loop of `NewWorkerPool`, from index `i` on.
abbrev pub new_workers : (ℕ → String) → ℕ → ℕ → List Member
new_workers itoa i zero = []
new_workers itoa i (suc n) =
    record { id = itoa i; worker = record { phase = running; notified = false } }
    ∷ new_workers itoa (suc i) n

unfoldable pub new_worker_pool : (ℕ → String) → CrawlConfig → List Member
new_worker_pool itoa cfg = new_workers itoa 0 cfg.workers_count

-- The workers that `Run` starts: none where `Subscribe` fails.
abbrev pub started : {A : Type 0} → GoResult A → List Member → List Member
started (ok notify) pool = pool
started (err e) pool = []
started panic pool = []

abbrev pub ids : List Member → List String
ids [] = []
ids (m ∷ ms) = m.id ∷ ids ms

abbrev pub is_ok : {A : Type 0} → GoResult A → Bool
is_ok (ok a) = true
is_ok (err e) = false
is_ok panic = false

module _ (itoa : ℕ → String) (injective : (i j : ℕ) → itoa i ≡ itoa j → i ≡ j) where
  count-new_workers :
      (i k n : ℕ)
      → count (itoa i) (ids (new_workers itoa k n)) ≡ (if leb k i && ltb i (k + n) then 1 else 0)
  count-new_workers i k zero = ground arith
  count-new_workers i k (suc n) =
      ground (arith, count-new_workers i (suc k) n, eq_iff (itoa k) (itoa i), injective k i)

  -- Where `strconv.Itoa` gives different numbers different texts, the id of each index below
  -- WorkersCount belongs to exactly one worker of the pool and the id of each other index to none,
  -- if `Subscribe` succeeds; if it fails, `Run` starts no worker.
  pub new_worker_pool-ids :
      {A : Type 0} (cfg : CrawlConfig) (subscribed : GoResult A) (i : ℕ)
      → count (itoa i) (ids (started subscribed (new_worker_pool itoa cfg)))
        ≡ (if ltb i cfg.workers_count && is_ok subscribed then 1 else 0)
  unfolding new_worker_pool
  new_worker_pool-ids cfg (ok notify) i = ground (arith, count-new_workers i 0 cfg.workers_count)
  new_worker_pool-ids cfg (err e) i = ground arith
  new_worker_pool-ids cfg panic i = ground arith
