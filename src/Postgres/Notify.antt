-- ===== src/Postgres/Notify.antt =====
-- notify_ds.go: the goroutine of `StartListening` as a step function, with its two channels of
-- capacity 1.
pub mod Missed
use oafse.Common.{Bool, true, false, List, [], ◌∷◌}

-- Where the goroutine stands: at `pgx.Connect`, at LISTEN, at `WaitForNotification`, in one of the
-- sleeps, or returned.
pub data Phase : Type 0 where
  connecting listening waiting sleeping returned : Phase

-- The phase, and whether `hasWork` and `errCh` hold a value.
pub record Listener : Type 0 where
  pub phase : Phase
  pub has_work : Bool
  pub has_err : Bool

-- What happens: a call succeeds or fails, a page is inserted (and notified on the channel), a sleep
-- ends, the indexer receives from a channel, or the context ends, after which no channel matters.
pub data Input : Type 0 where
  succeeds fails inserted wakes receives_work receives_err canceled : Input

-- A send with a `default`: a full channel stays as it is.
abbrev pub report : Listener → Listener
report l = record l { phase = sleeping; has_err = true }

abbrev pub listen_step : Listener → Phase → Input → Listener
listen_step l p receives_work = record l { has_work = false }
listen_step l p receives_err = record l { has_err = false }
listen_step l p canceled = record l { phase = returned }
listen_step l connecting succeeds = record l { phase = listening }
listen_step l connecting fails = report l
listen_step l listening succeeds = record l { phase = waiting }
listen_step l listening fails = report l
listen_step l waiting inserted = record l { has_work = true }
listen_step l waiting fails = report l
listen_step l sleeping wakes = record l { phase = connecting }
listen_step l p input = l

unfoldable pub listen_steps : Listener → List Input → Listener
listen_steps l [] = l
listen_steps l (input ∷ inputs) = listen_steps (listen_step l l.phase input) inputs
