-- ===== src/Redis/Net.antt =====
-- One request of a Go method to the Redis server.
pub use oafse.Common.Go.{GoResult, ok, err, panic, Error, transport, script, and_then}

-- One request to the server: answered, lost before it ran, or run and its reply lost.
pub data Link : Type 0 where
  up request_lost reply_lost : Link

abbrev pub call : {S A : Type 0} → Link → (S → A × S) → S → GoResult A × S
call up m s = let (a, s') = m s in (ok a, s')
call request_lost m s = (err transport, s)
call reply_lost m s = let (a, s') = m s in (err transport, s')
