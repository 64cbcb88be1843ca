-- ===== src/Worker/Examples.antt =====
-- The theorems about the workers at small inputs.
use oafse.Crawler.{crawler_config}
use oafse.Worker.Pool.{new_worker_pool, new_worker_pool-ids, started, ids}
use oafse.Common.{
  count, ap, zero, suc, String, ℕ, ◌≡◌, true, false, none, some, List, [], ◌∷◌, refl, arith,
}
use oafse.Common.Int.{pos}
use oafse.Common.Go.{GoResult, ok, err, Error}
use oafse.Port.Crawl.{CrawlMetadata}
use oafse.UseCase.Parse.{idle}
use oafse.UseCase.Parse.Outcome.{Answers, scripted}
use oafse.Worker.{
  Worker, running, sleeping, waiting, stopped, Input, executed, timed_out, timer_fired, steps,
  fan_out,
}
use oafse.Worker.Wake.{AllWake, fan_out-AllWake, idle_due_waits}
use oafse.Samples.{home}

abbrev workers : List Worker
workers =
    record { phase = running; notified = false }
    ∷ record { phase = sleeping (pos 5); notified = true }
    ∷ record { phase = waiting; notified = false }
    ∷ record { phase = stopped; notified = false }
    ∷ []

abbrev quiet : List Input
quiet = executed (ok (some (record { sleep_for = pos 0 }))) ∷ timer_fired ∷ timed_out false ∷ []

fan_out-AllWake_example : AllWake quiet (fan_out workers)
fan_out-AllWake_example = fan_out-AllWake workers quiet tt

abbrev answers : Answers ℕ
answers = record {
  taken = home;
  fetched = λ u. err Error.transport;
  extracted = λ fd. err Error.content;
  saved = λ page. ok 1;
  linked = ok tt;
  pushed = ok [];
  retried = ok tt;
  marked = λ status. ok tt;
  retry_at = λ try. none;
  url_string = λ u. u.url.host;
}

-- One URL waits for a retry, due at time 0, which is when `Execute` reads the clock.
abbrev due : CrawlMetadata
due = record { unprocessed_count = 1; earliest_retry = some (pos 0) }

idle_due_waits_example :
    (steps
      (record { phase = running; notified = false })
      (executed (idle (scripted answers) due []).0 ∷ quiet)).phase
    ≡ waiting
idle_due_waits_example =
    idle_due_waits (scripted answers) due [] (pos 0) quiet (omega arith) refl refl tt

-- Texts of a length.
abbrev tally : ℕ → String
tally zero = String.[]
tally (suc n) = String.◌∷◌ "1" (tally n)

tally-injective : (i j : ℕ) → tally i ≡ tally j → i ≡ j
tally-injective zero zero e = refl
tally-injective zero (suc j) e = absurd (cc)
tally-injective (suc i) zero e = absurd (cc)
tally-injective (suc i) (suc j) e = ap (λ (n : ℕ). suc n) (tally-injective i j (cc))

abbrev subscribed : GoResult ℕ
subscribed = ok 0

new_worker_pool-ids_example :
    count (tally 3) (ids (started subscribed (new_worker_pool tally crawler_config))) ≡ 1
new_worker_pool-ids_example = new_worker_pool-ids tally tally-injective crawler_config subscribed 3
