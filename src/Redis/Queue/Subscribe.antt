-- ===== src/Redis/Queue/Subscribe.antt =====
-- `Subscribe` of queue.go: the goroutine between the keyspace messages of the queue and the channel
-- of capacity 1 that the worker pool reads.
use oafse.Common.{
  ◌≡◌, String, Bool, true, false, List, [], ◌∷◌, arith, str_eq, count, ltb, ◌||◌, if◌then◌else◌,
}

-- What the goroutine meets: a message, by its payload, or a receive by the pool.
pub data Input : Type 0 where
  message : String → Input
  received : Input

-- The channel, full or not: any payload but "lpush" is passed over, and a full channel stays full.
abbrev pub on_input : Bool → Input → Bool
on_input full (message payload) = if str_eq payload "lpush" then true else full
on_input full received = false

unfoldable pub subscribe_steps : Bool → List Input → Bool
subscribe_steps full [] = full
subscribe_steps full (input ∷ inputs) = subscribe_steps (on_input full input) inputs

-- The payloads of the messages.
abbrev pub payloads : List Input → List String
payloads [] = []
payloads (received ∷ inputs) = payloads inputs
payloads (message payload ∷ inputs) = payload ∷ payloads inputs

-- The pool receives nothing among the inputs.
abbrev pub IsUnreceived : List Input → Type 0
IsUnreceived [] = Unit
IsUnreceived (received ∷ inputs) = ⊥
IsUnreceived (message payload ∷ inputs) = IsUnreceived inputs

-- While the pool receives nothing, the channel holds a notification exactly if it held one before or
-- an "lpush" has come, whatever other commands ran on the queue.
pub subscribe_steps_full :
    (inputs : List Input) (full : Bool)
    → IsUnreceived inputs
    → subscribe_steps full inputs ≡ (full || ltb 0 (count "lpush" (payloads inputs)))
unfolding subscribe_steps
subscribe_steps_full [] full h = ground arith
subscribe_steps_full (received ∷ inputs) full h = absurd h
subscribe_steps_full (message payload ∷ inputs) full h =
    ground (arith, subscribe_steps_full inputs (on_input full (message payload)) h)
