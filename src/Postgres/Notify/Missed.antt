-- ===== src/Postgres/Notify/Missed.antt =====
-- Which insertions reach the indexer.
use oafse.Common.{ℕ, zero, suc, ◌≡◌, Bool, true, false, List, [], ◌∷◌, refl, arith}
use oafse.Postgres.Notify.{
  Phase, Listener, Input, waiting, succeeds, fails, inserted, wakes, receives_work, receives_err,
  canceled, listen_step, listen_steps,
}

-- `n` insertions, one behind the other.
abbrev pub insertions : ℕ → List Input → List Input
insertions zero inputs = inputs
insertions (suc n) inputs = inserted ∷ insertions n inputs

-- The indexer receives nothing from `hasWork`, and the context does not end.
abbrev pub IsUnreceived : List Input → Type 0
IsUnreceived [] = Unit
IsUnreceived (receives_work ∷ inputs) = ⊥
IsUnreceived (canceled ∷ inputs) = ⊥
IsUnreceived (succeeds ∷ inputs) = IsUnreceived inputs
IsUnreceived (fails ∷ inputs) = IsUnreceived inputs
IsUnreceived (inserted ∷ inputs) = IsUnreceived inputs
IsUnreceived (wakes ∷ inputs) = IsUnreceived inputs
IsUnreceived (receives_err ∷ inputs) = IsUnreceived inputs

abbrev takes_work : Input → Bool
takes_work receives_work = true
takes_work _ = false

step_keeps :
    (l : Listener) (p : Phase) (input : Input)
    → takes_work input ≡ false
    → l.has_work ≡ true
    → (listen_step l p input).has_work ≡ true
step_keeps l p input h k = ground arith

steps_keep :
    (l : Listener) (inputs : List Input)
    → l.has_work ≡ true
    → IsUnreceived inputs
    → (listen_steps l inputs).has_work ≡ true
unfolding listen_steps
steps_keep l [] k q = k
steps_keep l (receives_work ∷ inputs) k q = absurd q
steps_keep l (canceled ∷ inputs) k q = absurd q
steps_keep l (succeeds ∷ inputs) k q = steps_keep _ inputs (step_keeps l l.phase succeeds refl k) q
steps_keep l (fails ∷ inputs) k q = steps_keep _ inputs (step_keeps l l.phase fails refl k) q
steps_keep l (inserted ∷ inputs) k q = steps_keep _ inputs (step_keeps l l.phase inserted refl k) q
steps_keep l (wakes ∷ inputs) k q = steps_keep _ inputs (step_keeps l l.phase wakes refl k) q
steps_keep l (receives_err ∷ inputs) k q =
    steps_keep _ inputs (step_keeps l l.phase receives_err refl k) q

-- An insertion while the goroutine waits for one leaves work for the indexer, and the work stays,
-- whatever else happens, the loss of the connection included, until the indexer receives it or the
-- context ends.
pub inserted_kept :
    (l : Listener) (inputs : List Input)
    → l.phase ≡ waiting
    → IsUnreceived inputs
    → (listen_steps l (inserted ∷ inputs)).has_work ≡ true
unfolding listen_steps
inserted_kept l inputs h q = steps_keep (listen_step l l.phase inserted) inputs (rw h refl) q
