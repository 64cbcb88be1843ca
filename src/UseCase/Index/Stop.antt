-- ===== src/UseCase/Index/Stop.antt =====
-- When the indexer gives up.
use oafse.Common.{ℕ, suc, ◌+◌, ◌≤◌, ◌≡◌, List, [], ◌∷◌, arith, ltb, if◌then◌else◌}
use oafse.Common.Go.{ok, err, panic}
use oafse.UseCase.Index.{
  Event, has_work, listen_error, context_done, listen, listening, too_many_errors,
}

-- A run of events that are all errors, of `process` or of the listener.
abbrev pub AllErrors : List Event → Type 0
AllErrors [] = Unit
AllErrors (has_work (ok _) ∷ events) = ⊥
AllErrors (has_work panic ∷ events) = ⊥
AllErrors (has_work (err _) ∷ events) = AllErrors events
AllErrors (listen_error ∷ events) = AllErrors events
AllErrors (context_done ∷ events) = ⊥

abbrev pub event_count : List Event → ℕ
event_count [] = 0
event_count (e ∷ es) = suc (event_count es)

-- Errors that follow one another end `Execute` exactly when their number, with the errors counted
-- before them, passes 10.
pub listen_errors :
    (events : List Event) (n : ℕ)
    → n ≤ 10
    → AllErrors events
    → listen events n ≡ (
        if ltb 10 (n + event_count events)
        then too_many_errors
        else listening (n + event_count events))
unfolding listen
listen_errors [] n h a = ground arith
listen_errors (has_work (ok x) ∷ events) n h a = absurd a
listen_errors (has_work panic ∷ events) n h a = absurd a
listen_errors (has_work (err x) ∷ events) n h a = ground (arith, listen_errors events (n + 1))
listen_errors (listen_error ∷ events) n h a = ground (arith, listen_errors events (n + 1))
listen_errors (context_done ∷ events) n h a = absurd a
