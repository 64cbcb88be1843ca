-- ===== src/Domain/Retry/Exact.antt =====
-- When the retry time is exact.
use oafse.Common.{
  ℕ, ◌*◌, ◌^◌, ◌≤◌, ◌<◌, ◌≡◌, true, none, some, ltb, if◌then◌else◌, arith, Bool-cases, inl, inr,
  ltb→lt, lt→ltb,
}
use native.Mathlib.Nat.{pow-le-pow_right, mul-le-mul_left, lt_of_le_of_lt}
use oafse.Common.Int.{ℤ, pos, ◌+ℤ◌, wrap64}
use oafse.Domain.Retry.{CrawlConfig, calc_retry_time}

delay-lt : (base try lim : ℕ) → try < lim → base * 2 ^ lim < 2 ^ 63 → base * 2 ^ try < 2 ^ 63
delay-lt base try lim h k =
    lt_of_le_of_lt (mul-le-mul_left base (pow-le-pow_right (omega arith) (omega arith))) k

wrap64_small : (n : ℕ) → n < 2 ^ 63 → wrap64 n ≡ pos n
wrap64_small n h = ground arith

-- Where there is a limit of at most 63 tries, and the base interval doubled that often is an int64,
-- `CalcRetryTime` refuses a retry exactly from the limit on, and otherwise gives the time that lies
-- the base interval, doubled once for each try so far, behind now.
pub calc_retry_time_exact :
    (convert : ℕ → ℕ) (now : ℤ) (try lim : ℕ) (conf : CrawlConfig)
    → conf.try_lim ≡ pos lim
    → lim ≤ 63
    → conf.try_base_interval * 2 ^ lim < 2 ^ 63
    → calc_retry_time convert now try conf
      ≡ (if ltb try lim then some (now +ℤ pos (conf.try_base_interval * 2 ^ try)) else none)
unfolding calc_retry_time
calc_retry_time_exact convert now try lim conf e h k = elim (Bool-cases (ltb try lim)) [
  | inl more ↦
      let small : ltb try 63 ≡ true = lt→ltb try 63 (omega (arith, ltb→lt try lim more)) in
      let exact =
        wrap64_small (conf.try_base_interval * 2 ^ try)
          (delay-lt conf.try_base_interval try lim (ltb→lt try lim more) k) in
      rw more (rw e (rw (small, exact) (ground (arith, more))))
  | inr over ↦ rw over (rw e (ground (arith, over)))
]
