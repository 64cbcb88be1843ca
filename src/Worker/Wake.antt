-- ===== src/Worker/Wake.antt =====
-- When a worker wakes.
use oafse.Common.{
  ◌≡◌, ◌<◌, ◌⊎◌, inl, inr, Bool, true, false, Option, none, some, List, [], ◌∷◌, refl, arith, ap,
  ◌∙◌, lt→ltb,
}
use oafse.Common.Int.{ℤ, pos, negsuc, ◌-ℤ◌, ◌+ℤ◌, int_leb, int_ltb}
use oafse.Port.Crawl.{ParseCmd, CrawlMetadata, CrawlPorts}
use oafse.UseCase.Parse.{idle, retry_time}
use oafse.Worker.{
  Phase, running, sleeping, waiting, stopped, Worker, Input, executed, timed_out, timer_fired,
  receives, canceled, command, after_command, step, steps, fan_out,
}

-- The inputs other than a notification and the end of the parent context.
abbrev pub IsQuiet : List Input → Type 0
IsQuiet [] = Unit
IsQuiet (receives ∷ inputs) = ⊥
IsQuiet (canceled ∷ inputs) = ⊥
IsQuiet (timed_out true ∷ inputs) = ⊥
IsQuiet (timed_out false ∷ inputs) = IsQuiet inputs
IsQuiet (timer_fired ∷ inputs) = IsQuiet inputs
IsQuiet (executed result ∷ inputs) = IsQuiet inputs

abbrev at : Phase → Worker
at phase = record { phase = phase; notified = true }

abbrev is_stopped : Phase → Bool
is_stopped stopped = true
is_stopped _ = false

after_command-live : (o : Option ParseCmd) → is_stopped (after_command o) ≡ false
after_command-live none = refl
after_command-live (some cmd) = ground arith

-- A notification stays in the channel of a worker that has not returned, until it receives it.
wakes :
    (phase : Phase) (inputs : List Input)
    → is_stopped phase ≡ false
    → IsQuiet inputs
    → (step (steps (at phase) inputs) receives).phase ≡ running
unfolding steps
wakes running [] h q = refl
wakes (sleeping d) [] h q = refl
wakes waiting [] h q = refl
wakes stopped inputs h q = absurd (cc)
wakes running (executed result ∷ inputs) h q =
    wakes (after_command (command result)) inputs (after_command-live (command result)) q
wakes running (timed_out false ∷ inputs) h q = wakes running inputs refl q
wakes running (timed_out true ∷ inputs) h q = absurd q
wakes running (timer_fired ∷ inputs) h q = wakes running inputs refl q
wakes (sleeping d) (executed result ∷ inputs) h q = wakes (sleeping d) inputs refl q
wakes (sleeping d) (timed_out false ∷ inputs) h q = wakes (sleeping d) inputs refl q
wakes (sleeping d) (timed_out true ∷ inputs) h q = absurd q
wakes (sleeping d) (timer_fired ∷ inputs) h q = wakes running inputs refl q
wakes waiting (executed result ∷ inputs) h q = wakes waiting inputs refl q
wakes waiting (timed_out false ∷ inputs) h q = wakes waiting inputs refl q
wakes waiting (timed_out true ∷ inputs) h q = absurd q
wakes waiting (timer_fired ∷ inputs) h q = wakes waiting inputs refl q
wakes phase (receives ∷ inputs) h q = absurd q
wakes phase (canceled ∷ inputs) h q = absurd q

-- After the inputs, the next receive finds each worker running, unless it had returned.
abbrev pub AllWake : List Input → List Worker → Type 0
AllWake inputs [] = Unit
AllWake inputs (w ∷ ws) =
    ((w.phase ≡ stopped) ⊎ ((step (steps w inputs) receives).phase ≡ running)) × AllWake inputs ws

wake_one :
    (phase : Phase) (inputs : List Input)
    → IsQuiet inputs
    → (phase ≡ stopped) ⊎ ((step (steps (at phase) inputs) receives).phase ≡ running)
wake_one running inputs q = inr (wakes running inputs refl q)
wake_one (sleeping d) inputs q = inr (wakes (sleeping d) inputs refl q)
wake_one waiting inputs q = inr (wakes waiting inputs refl q)
wake_one stopped inputs q = inl refl

-- A notification that `fanOut` passes on wakes every worker that has not returned: whatever ends
-- its `Execute` or its timer before, its next receive finds it running, also when the notification
-- came while it was not waiting, or stood in a full channel.
pub fan_out-AllWake :
    (ws : List Worker) (inputs : List Input) → IsQuiet inputs → AllWake inputs (fan_out ws)
unfolding fan_out
fan_out-AllWake [] inputs q = tt
fan_out-AllWake (w ∷ ws) inputs q = (wake_one w.phase inputs q, fan_out-AllWake ws inputs q)

-- A worker that waits is left waiting by everything but a notification and the end.
waiting-steps :
    (notified : Bool) (inputs : List Input)
    → IsQuiet inputs
    → (steps (record { phase = waiting; notified = notified }) inputs).phase ≡ waiting
unfolding steps
waiting-steps notified [] q = refl
waiting-steps notified (executed result ∷ inputs) q = waiting-steps notified inputs q
waiting-steps notified (timed_out false ∷ inputs) q = waiting-steps notified inputs q
waiting-steps notified (timed_out true ∷ inputs) q = absurd q
waiting-steps notified (timer_fired ∷ inputs) q = waiting-steps notified inputs q
waiting-steps notified (receives ∷ inputs) q = absurd q
waiting-steps notified (canceled ∷ inputs) q = absurd q

due_retry : (e now : ℤ) → int_leb e now ≡ true → int_ltb (pos 0) (e -ℤ now) ≡ false
due_retry (pos a) (pos b) h = ground arith
due_retry (pos a) (negsuc b) h = ground arith
due_retry (negsuc a) (pos b) h = ground arith
due_retry (negsuc a) (negsuc b) h = ground arith

sleep_due :
    (earliest now : ℤ)
    → int_leb earliest now ≡ true
    → after_command (some (record { sleep_for = earliest -ℤ now })) ≡ waiting
sleep_due earliest now due = let none_left = due_retry earliest now due in ground (arith, none_left)

idle_phase :
    {S F : Type 0} (p : CrawlPorts S F) (md : CrawlMetadata) (s : S) (earliest : ℤ)
    → 0 < md.unprocessed_count
    → md.earliest_retry ≡ some earliest
    → int_leb earliest (p.now_later s) ≡ true
    → after_command (command (idle p md s).0) ≡ waiting
unfolding idle
idle_phase p md s earliest h e due =
    let many = lt→ltb 0 md.unprocessed_count h in
    let sleep = λ (o : Option ℤ). after_command (
      some
        (record { sleep_for = retry_time p o (p.now s +ℤ pos (p.jitter s)) -ℤ p.now_later s })) in
    rw many (ap sleep e ∙ sleep_due earliest (p.now_later s) due)

-- When the queue is empty, URLs are unprocessed, and the earliest retry is due by the time that
-- `Execute` computes how long to sleep, the worker waits without a timer: without a notification,
-- and while the program is not ended, it goes on waiting.
pub idle_due_waits :
    {S F : Type 0} (p : CrawlPorts S F) (md : CrawlMetadata) (s : S) (earliest : ℤ)
    (inputs : List Input)
    → 0 < md.unprocessed_count
    → md.earliest_retry ≡ some earliest
    → int_leb earliest (p.now_later s) ≡ true
    → IsQuiet inputs
    → (steps
        (record { phase = running; notified = false })
        (executed (idle p md s).0 ∷ inputs)).phase
      ≡ waiting
unfolding steps idle
idle_due_waits p md s earliest inputs h e due q =
    ap (λ phase. (steps (record { phase = phase; notified = false }) inputs).phase)
      (idle_phase p md s earliest h e due)
    ∙ waiting-steps false inputs q
