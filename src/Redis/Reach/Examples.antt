-- ===== src/Redis/Reach/Examples.antt =====
-- A retry of a URL that was pushed and taken.
use oafse.Common.{◌+◌, ◌≡◌, ◌≤◌, true, none, some, [], refl, arith}
use oafse.Common.Int.{pos}
use oafse.Domain.Retry.{CrawlConfig, calc_retry_time}
use oafse.Redis.Db.{Db}
use oafse.Redis.Api.{Redis, reference}
use oafse.Redis.Scripts.{hget, push_url, pop_url, retry_url}
use oafse.Redis.Reach.{Reach, here, next, takes, retries}
use oafse.Redis.Reach.Tries.{tries_of}
use oafse.Redis.Reach.Retried.{retries_on, AllAllowed, Reach-retries}

abbrev server : Redis
server = reference (λ a b. true)

abbrev empty : Db
empty = record { lists = λ k. []; hashes = λ k u. none; sets = λ k. []; zsets = λ k. [] }

abbrev pushed : Db
pushed = (push_url server "https://a.org" "" empty).1

abbrev taken : Db
taken = (pop_url server "7" 100 pushed).1

abbrev retried : Db
retried = (retry_url server "https://a.org" (pos 5_100) taken).1

abbrev conf : CrawlConfig
conf = record {
  workers_count = 20;
  try_lim = pos 5;
  try_base_interval = 5_000_000_000;
  health_check_worry_threshold = 15_000_000_000;
}

path : Reach server pushed retried
unfolding push_url pop_url
path = next (next here (takes "7" 100)) (retries "https://a.org" (pos 5_100) refl)

path-AllAllowed : AllAllowed server (λ n. n) conf path
unfolding path push_url pop_url calc_retry_time
path-AllAllowed = ((tt, tt), (0, refl, (pos 100_000_000, pos 5_100_000_000, refl, refl)))

Reach-retries_example :
    (tries_of (hget server "https://a.org" retried)
      ≡ some (retries_on server "https://a.org" path + 0))
    × (retries_on server "https://a.org" path + 0 ≤ 5)
unfolding push_url
Reach-retries_example =
    Reach-retries server "https://a.org" (λ n. n) conf 5 refl 0 path refl (omega arith)
      path-AllAllowed
