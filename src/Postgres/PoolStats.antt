-- ===== src/Postgres/PoolStats.antt =====
-- internal/infrastructure/storage/postgres/pool_stats.go: what the goroutine of
-- `StartPoolStatsPolling` shows of the connection pool. Counts and durations (in nanoseconds) are
-- exact here: the conversions to float64 and to seconds are left out.
use oafse.Common.{ℕ, ◌+◌, ◌-◌, ◌≡◌, ◌≤◌, List, [], ◌∷◌, leb, if◌then◌else◌, arith, refl}
use oafse.Common.Go.{GoResult, ok, err, panic}

-- `pgxpool.Stat`: what the pool holds now, and what it has counted since it was made.
pub record Stat : Type 0 where
  pub acquired_conns : ℕ
  pub idle_conns : ℕ
  pub total_conns : ℕ
  pub max_conns : ℕ
  pub acquire_count : ℕ
  pub empty_acquire_count : ℕ
  pub canceled_acquire_count : ℕ
  pub acquire_duration : ℕ
  pub empty_acquire_wait_time : ℕ

-- The gauges and counters of metrics.go, and the variables of the goroutine.
pub record Polled : Type 0 where
  pub acquired_conns : ℕ
  pub idle_conns : ℕ
  pub total_conns : ℕ
  pub max_conns : ℕ
  pub acquire_total : ℕ
  pub empty_acquire_total : ℕ
  pub canceled_acquire_total : ℕ
  pub acquire_duration_total : ℕ
  pub empty_acquire_wait_total : ℕ
  pub last_acquire_count : ℕ
  pub last_empty_acquire_count : ℕ
  pub last_canceled_acquire_count : ℕ
  pub last_acquire_duration : ℕ
  pub last_empty_acquire_wait_time : ℕ

-- `counter.Add(now - last)`: the counter of Prometheus panics at a negative number.
abbrev pub add_delta : ℕ → ℕ → ℕ → (ℕ → GoResult Polled) → GoResult Polled
add_delta counter last now k = if leb last now then k (counter + (now - last)) else panic

unfoldable pub poll : Stat → Polled → GoResult Polled
poll stat p = add_delta p.acquire_total p.last_acquire_count stat.acquire_count λ acquires.
    add_delta p.empty_acquire_total p.last_empty_acquire_count stat.empty_acquire_count λ empties.
      add_delta p.canceled_acquire_total p.last_canceled_acquire_count stat.canceled_acquire_count
        λ cancels.
          add_delta p.acquire_duration_total p.last_acquire_duration stat.acquire_duration
            λ duration.
              add_delta p.empty_acquire_wait_total p.last_empty_acquire_wait_time
                stat.empty_acquire_wait_time
                λ waited. ok (record {
                  acquired_conns = stat.acquired_conns;
                  idle_conns = stat.idle_conns;
                  total_conns = stat.total_conns;
                  max_conns = stat.max_conns;
                  acquire_total = acquires;
                  empty_acquire_total = empties;
                  canceled_acquire_total = cancels;
                  acquire_duration_total = duration;
                  empty_acquire_wait_total = waited;
                  last_acquire_count = stat.acquire_count;
                  last_empty_acquire_count = stat.empty_acquire_count;
                  last_canceled_acquire_count = stat.canceled_acquire_count;
                  last_acquire_duration = stat.acquire_duration;
                  last_empty_acquire_wait_time = stat.empty_acquire_wait_time;
                })

abbrev pub then_poll : (Polled → GoResult Polled) → GoResult Polled → GoResult Polled
then_poll k (ok p) = k p
then_poll k (err e) = err e
then_poll k panic = panic

-- The ticks.
unfoldable pub polls : List Stat → Polled → GoResult Polled
unfolding poll
polls [] p = ok p
polls (stat ∷ stats) p = then_poll (λ q. polls stats q) (poll stat p)

-- The pool's counts only grow.
abbrev pub Grows : Stat → Stat → Type 0
Grows a b =
    (a.acquire_count ≤ b.acquire_count)
    × (a.empty_acquire_count ≤ b.empty_acquire_count)
    × (a.canceled_acquire_count ≤ b.canceled_acquire_count)
    × (a.acquire_duration ≤ b.acquire_duration)
    × (a.empty_acquire_wait_time ≤ b.empty_acquire_wait_time)

abbrev pub AllGrow : Stat → List Stat → Type 0
AllGrow a [] = Unit
AllGrow a (b ∷ stats) = Grows a b × AllGrow b stats

abbrev pub last : Stat → List Stat → Stat
last a [] = a
last a (b ∷ stats) = last b stats

-- The metrics that show one reading of the pool.
abbrev pub showing : Stat → Polled
showing stat = record {
  acquired_conns = stat.acquired_conns;
  idle_conns = stat.idle_conns;
  total_conns = stat.total_conns;
  max_conns = stat.max_conns;
  acquire_total = stat.acquire_count;
  empty_acquire_total = stat.empty_acquire_count;
  canceled_acquire_total = stat.canceled_acquire_count;
  acquire_duration_total = stat.acquire_duration;
  empty_acquire_wait_total = stat.empty_acquire_wait_time;
  last_acquire_count = stat.acquire_count;
  last_empty_acquire_count = stat.empty_acquire_count;
  last_canceled_acquire_count = stat.canceled_acquire_count;
  last_acquire_duration = stat.acquire_duration;
  last_empty_acquire_wait_time = stat.empty_acquire_wait_time;
}

poll-showing : (a b : Stat) → Grows a b → poll b (showing a) ≡ ok (showing b)
unfolding poll
poll-showing a b (f, g, h, i, j) = ground arith

-- From metrics that show a reading of the pool, as the zeros at the start do, over readings whose
-- counts only grow: no counter is given a negative number, and behind the last tick every gauge and
-- counter shows the last reading.
polls_lem :
    (a : Stat) (stats : List Stat)
    → AllGrow a stats
    → polls stats (showing a) ≡ ok (showing (last a stats))
unfolding polls
polls_lem a [] h = refl
polls_lem a (b ∷ stats) (g, h) = rw (poll-showing a b g) (polls_lem b stats h)
