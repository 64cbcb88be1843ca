-- ===== src/Redis/Queue.antt =====
-- queue.go: the main queue.
pub mod Push
pub mod Take
pub mod Subscribe
pub mod Loss
use oafse.Common.{ℕ, suc, zero, String, Bool, true, false, none, some, List, [], ◌∷◌}
use oafse.Storage.Model.{UrlCache}
use oafse.Redis.Api.{Redis}
use oafse.Redis.Scripts.{PopReply, nil, fields, decode_error, pop_url, push_url}
use oafse.Redis.Net.{GoResult, ok, err, panic, Error, Link, call, and_then, transport}

-- The lines of `TakeOn` behind the script. Without a parent the reply has no third element, and
-- `vals[2]` is out of range.
abbrev pub taken : PopReply → GoResult UrlCache
taken nil = err Error.queue_empty
taken decode_error = err Error.script
taken (fields url try none) = panic
taken (fields url try (some parent)) = ok (record { url = url; parent = parent; try = try })

-- The commands of a pipeline: all ran, or the connection broke behind the first `n`.
pub data Pipe : Type 0 where
  delivered : Pipe
  broken : ℕ → Pipe

-- The URLs whose push answered 1.
abbrev pub pushed_of : Bool → UrlCache → List UrlCache → List UrlCache
pushed_of true u us = u ∷ us
pushed_of false u us = us

module _ (r : Redis) where
  open r use {Store}

  unfoldable pub queue_take_on : Link → String → ℕ → Store → GoResult UrlCache × Store
  queue_take_on link worker_id now s =
      and_then (call link (pop_url r worker_id now) s) λ reply s'. (taken reply, s')

  unfoldable pub push_one : Link → UrlCache → Store → GoResult Bool × Store
  push_one link u s = call link (push_url r u.url u.parent) s

  -- The pipeline of `PushURLs` and the loop over its replies.
  unfoldable pub push_each : List UrlCache → Store → List UrlCache × Store
  push_each [] s = ([], s)
  push_each (u ∷ us) s =
      let (fresh, s') = push_url r u.url u.parent s in
      let (rest, s'') = push_each us s' in (pushed_of fresh u rest, s'')

  -- A pipeline that breaks behind its first `n` commands.
  unfoldable pub push_some : ℕ → List UrlCache → Store → Store
  push_some zero us s = s
  push_some (suc n) [] s = s
  push_some (suc n) (u ∷ us) s = push_some n us (push_url r u.url u.parent s).1

  unfoldable pub push_urls : Pipe → List UrlCache → Store → GoResult (List UrlCache) × Store
  unfolding push_each push_some
  push_urls delivered us s = let (pushed, s') = push_each us s in (ok pushed, s')
  push_urls (broken n) us s = (err transport, push_some n us s)
