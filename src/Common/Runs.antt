-- ===== src/Common/Runs.antt =====
-- How a call of a Go function that may fail ends, over the state that it works on.
use oafse.Common.Go.{GoResult, ok, err, panic, and_then}

-- A call ends with a value that meets `P`, or with an error in a state that meets `E`; it does not
-- panic.
abbrev pub Ends : {S A : Type 0} → (S → Type 0) → (A → S → Type 0) → GoResult A × S → Type 0
Ends E P (ok a, s) = P a s
Ends E P (err e, s) = E s
Ends E P (panic, s) = ⊥

pub and_then-Ends :
    {S A B : Type 0} (E : S → Type 0) (P : A → S → Type 0) (Q : B → S → Type 0) (x : GoResult A × S)
    (k : A → S → GoResult B × S)
    → Ends E P x
    → ((a : A) (s : S) → P a s → Ends E Q (k a s))
    → Ends E Q (and_then x k)
and_then-Ends E P Q (ok a, s) k h next = next a s h
and_then-Ends E P Q (err e, s) k h next = h
and_then-Ends E P Q (panic, s) k h next = h

pub Ends-map :
    {S A : Type 0} (E E' : S → Type 0) (P P' : A → S → Type 0) (x : GoResult A × S)
    → Ends E P x
    → ((s : S) → E s → E' s)
    → ((a : A) (s : S) → P a s → P' a s)
    → Ends E' P' x
Ends-map E E' P P' (ok a, s) h on_err on_ok = on_ok a s h
Ends-map E E' P P' (err e, s) h on_err on_ok = on_err s h
Ends-map E E' P P' (panic, s) h on_err on_ok = h

pub Ends-both :
    {S A : Type 0} (E E' : S → Type 0) (P P' : A → S → Type 0) (x : GoResult A × S)
    → Ends E P x
    → Ends E' P' x
    → Ends (λ s. E s × E' s) (λ a s. P a s × P' a s) x
Ends-both E E' P P' (ok a, s) h k = (h, k)
Ends-both E E' P P' (err e, s) h k = (h, k)
Ends-both E E' P P' (panic, s) h k = h
