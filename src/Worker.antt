-- ===== src/Worker.antt =====
-- internal/delivery/worker/worker.go: the loop of a worker as a step function, and the fan-out of
-- notifications. Logs and metrics are left out.
pub mod Wake
pub mod Pool
mod Examples
use oafse.Common.{Bool, true, false, Option, none, some, List, [], ◌∷◌, if◌then◌else◌}
use oafse.Common.Int.{ℤ, pos, int_ltb}
use oafse.Common.Go.{GoResult, ok, err, panic}
use oafse.Port.Crawl.{ParseCmd}

-- Where `run` stands: in the outer `select`, in one of the two inner ones, or returned.
pub data Phase : Type 0 where
  running : Phase
  sleeping : ℤ → Phase
  waiting : Phase
  stopped : Phase

-- A worker: its phase, and whether its channel, of capacity 1, holds a notification.
pub record Worker : Type 0 where
  pub phase : Phase
  pub notified : Bool

-- What a worker meets: the end of `Execute`, the 15 seconds' timeout (with whether the parent
-- context has ended), its timer, its channel, and the end of the parent context.
pub data Input : Type 0 where
  executed : GoResult (Option ParseCmd) → Input
  timed_out : Bool → Input
  timer_fired : Input
  receives : Input
  canceled : Input

-- The command that reaches `run`: an error and a recovered panic leave it nil.
abbrev pub command : GoResult (Option ParseCmd) → Option ParseCmd
command (ok cmd) = cmd
command (err e) = none
command panic = none

abbrev pub after_command : Option ParseCmd → Phase
after_command none = running
after_command (some cmd) = if int_ltb (pos 0) cmd.sleep_for then sleeping cmd.sleep_for else waiting

-- A receive from the channel, which is ready only with a notification in it.
abbrev pub received : Worker → Bool → Worker
received w false = w
received w true = record { phase = running; notified = false }

-- A step; an input that the phase does not select on is not met, and changes nothing.
abbrev pub step_in : Worker → Phase → Input → Worker
step_in w running (executed result) = record w { phase = after_command (command result) }
step_in w running (timed_out parent_ended) = record w {
  phase = if parent_ended then stopped else running;
}
step_in w (sleeping d) timer_fired = record w { phase = running }
step_in w (sleeping d) receives = received w w.notified
step_in w (sleeping d) canceled = record w { phase = stopped }
step_in w waiting receives = received w w.notified
step_in w waiting canceled = record w { phase = stopped }
step_in w _ _ = w

unfoldable pub step : Worker → Input → Worker
step w input = step_in w w.phase input

unfoldable pub steps : Worker → List Input → Worker
unfolding step
steps w [] = w
steps w (input ∷ inputs) = steps (step w input) inputs

-- One notification in `fanOut`: a send to each channel that has room.
unfoldable pub fan_out : List Worker → List Worker
fan_out [] = []
fan_out (w ∷ ws) = record w { notified = true } ∷ fan_out ws
