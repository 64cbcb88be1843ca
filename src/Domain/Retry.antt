-- ===== src/Domain/Retry.antt =====
-- internal/domain/service/processing.go and internal/domain/model/config.go. Times are int64
-- nanoseconds of the Unix time, durations int64 nanoseconds.
pub mod Exact
use oafse.Common.{
  ℕ, ◌+◌, ◌*◌, ◌^◌, ◌≡◌, Bool, true, false, ◌&&◌, not, Option, none, some, ltb, if◌then◌else◌,
}
use oafse.Common.Int.{ℤ, pos, negsuc, ◌+ℤ◌, int_leb, int_eqb, wrap64}

pub record CrawlConfig : Type 0 where
  pub workers_count : ℕ
  pub try_lim : ℤ
  pub try_base_interval : ℕ
  pub health_check_worry_threshold : ℕ

-- `time.Duration(math.Pow(2, float64(try)))`. The power is exact below 2^63; what a conversion of a
-- float beyond int64 gives depends on the processor, so `convert` is a parameter.
abbrev pub pow2_duration : (ℕ → ℕ) → ℕ → ℕ
pow2_duration convert try = if ltb try 63 then 2 ^ try else convert try

-- `none` is `(false, time.Time{})`.
unfoldable pub calc_retry_time : (ℕ → ℕ) → ℤ → ℕ → CrawlConfig → Option ℤ
calc_retry_time convert now try conf =
    if not (int_eqb conf.try_lim (negsuc 0)) && int_leb conf.try_lim (pos try)
    then none
    else some (now +ℤ wrap64 (conf.try_base_interval * pow2_duration convert try))
