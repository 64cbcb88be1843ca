-- ===== src/Redis/Frontier/Finished.antt =====
-- What no call undoes, and so no sequence of scripts.
use oafse.Common.{◌≡◌, ◌≢◌, ◌∙◌, inl, inr, String, Option, none, some, arith, eq_iff, refl}
use oafse.Storage.Model.{CrawlStatus}
use oafse.Redis.Api.{Redis}
use oafse.Redis.Placement.{AllPlaced, IsFinal}
use oafse.Redis.Reach.{Reach, here, next}
use oafse.Redis.Reach.Place.{Reach-AllPlaced}
use oafse.Redis.Frontier.{
  Frontier, Call, push, take, retry, mark, recover, enqueue, Allows, IsAsked, frontier, call_of,
  Step-IsAsked,
}
use oafse.Redis.Frontier.Refines.{Step-Allows}

-- Recorded, and neither queued nor in processing nor waiting for a retry.
abbrev pub IsFinished : Option CrawlStatus → Type 0
IsFinished none = ⊥
IsFinished (some status) = IsFinal status

module _ (f g : Frontier) (u : String) where
  finished_stays : (c : Call) → IsAsked c f → Allows c f g → IsFinished (f u) → g u ≡ f u
  finished_stays (push url) asked a h = ground (arith, a u, eq_iff url u)
  finished_stays take asked (inl (idle, same)) h = same u
  finished_stays take asked (inr (url, queued, sets)) h = ground (arith, sets u, eq_iff url u)
  finished_stays (retry url) held sets h = ground (arith, held, sets u, eq_iff url u)
  finished_stays (mark url status) (held, fin) sets h = ground (arith, held, sets u, eq_iff url u)
  finished_stays (recover url) held sets h = ground (arith, held, sets u, eq_iff url u)
  finished_stays enqueue asked (released, waited, sets) h = ground (arith, sets u, waited u)

  recorded_stays : (c : Call) → IsAsked c f → Allows c f g → f u ≢ none → g u ≢ none
  recorded_stays (push url) asked a h = ground (arith, a u, eq_iff url u)
  recorded_stays take asked (inl (idle, same)) h = ground (arith, same u)
  recorded_stays take asked (inr (url, queued, sets)) h = ground (arith, sets u, eq_iff url u)
  recorded_stays (retry url) held sets h = ground (arith, held, sets u, eq_iff url u)
  recorded_stays (mark url status) (held, fin) sets h = ground (arith, held, sets u, eq_iff url u)
  recorded_stays (recover url) held sets h = ground (arith, held, sets u, eq_iff url u)
  recorded_stays enqueue asked (released, waited, sets) h = ground (arith, sets u)

-- From a store in which every URL has its place, no sequence of scripts in which RetryURL,
-- MarkProcessed and RecoverURL run only for URLs that are in processing when they run, and
-- MarkProcessed with final statuses, changes the status of a URL whose recorded status is final:
-- no push and no enqueueing queues it again, no take hands it out, and those three scripts do not
-- reach it.
pub Reach-finished_stays :
    (r : Redis) (u : String) {s t : r.Store}
    → AllPlaced (r.contents s)
    → Reach r s t
    → IsFinished (frontier r s u)
    → frontier r t u ≡ frontier r s u
Reach-finished_stays r u p here h = refl
Reach-finished_stays r u {s} p (next {t} path step) h =
    let kept = Reach-finished_stays r u p path h in
    finished_stays (frontier r t) _ u (call_of r step) (Step-IsAsked r step)
      (Step-Allows r step (Reach-AllPlaced r p path)) (rw kept h)
    ∙ kept

-- Nor does such a sequence of scripts forget a URL.
pub Reach-recorded_stays :
    (r : Redis) (u : String) {s t : r.Store}
    → AllPlaced (r.contents s)
    → Reach r s t
    → frontier r s u ≢ none
    → frontier r t u ≢ none
Reach-recorded_stays r u p here h = h
Reach-recorded_stays r u p (next {t} path step) h =
    recorded_stays (frontier r t) _ u (call_of r step) (Step-IsAsked r step)
      (Step-Allows r step (Reach-AllPlaced r p path)) (Reach-recorded_stays r u p path h)
