-- ===== src/Redis/Reach/Place.antt =====
-- Every reachable store has each URL in its place.
use oafse.Common.{ap, sym, subst}
use oafse.Redis.Api.{Redis}
use oafse.Redis.Scripts.Simulation.{
  observe-push_url, observe-pop_url, observe-retry_url, observe-mark_processed, contents-recover,
  contents-enqueue_urls,
}
use oafse.Redis.Placement.{AllPlaced}
use oafse.Redis.Placement.Steps.{
  push_url-AllPlaced, retry_url-AllPlaced, mark_processed-AllPlaced, recover-AllPlaced,
}
use oafse.Redis.Placement.Take.{pop_url-AllPlaced}
use oafse.Redis.Placement.Enqueue.{enqueue_urls-AllPlaced}
use oafse.Redis.Reach.{Step, Reach, pushes, takes, retries, marks, recovers, enqueues, here, next}

module _ (r : Redis) where
  open r use {contents, before}

  pub Step-AllPlaced :
      {s t : r.Store} → Step r s t → AllPlaced (contents s) → AllPlaced (contents t)
  Step-AllPlaced {s} (pushes url parent) p =
      subst AllPlaced (sym (ap (λ o. o.1) (observe-push_url r url parent s)))
        (push_url-AllPlaced before url parent (contents s) p)
  Step-AllPlaced {s} (takes id now) p =
      subst AllPlaced (sym (ap (λ o. o.1) (observe-pop_url r id now s)))
        (pop_url-AllPlaced before id now (contents s) p)
  Step-AllPlaced {s} (retries url at st) p =
      subst AllPlaced (sym (ap (λ o. o.1) (observe-retry_url r url at s)))
        (retry_url-AllPlaced before url at (contents s) st p)
  Step-AllPlaced {s} (marks url status st fin) p =
      subst AllPlaced (sym (ap (λ o. o.1) (observe-mark_processed r url status s)))
        (mark_processed-AllPlaced before url status (contents s) st fin p)
  Step-AllPlaced {s} (recovers url st) p =
      subst AllPlaced (sym (contents-recover r url s))
        (recover-AllPlaced before url (contents s) st p)
  Step-AllPlaced {s} (enqueues now) p =
      subst AllPlaced (sym (contents-enqueue_urls r now s))
        (enqueue_urls-AllPlaced before now (contents s) p)

  -- From a store in which every URL has its place, whatever scripts the workers, the health check
  -- and the control API run, in any order, every URL has its place: its status record says whether
  -- it stands once in the queue, once in the processing index and once in the list of the worker
  -- that the record names, once in the retry queue, or nowhere, and it stands nowhere else. The
  -- scripts of RetryURL, MarkProcessed and RecoverURL run for URLs in processing only, and that of
  -- MarkProcessed with a final status.
  pub Reach-AllPlaced :
      {s t : r.Store} → AllPlaced (contents s) → Reach r s t → AllPlaced (contents t)
  Reach-AllPlaced p here = p
  Reach-AllPlaced p (next path step) = Step-AllPlaced step (Reach-AllPlaced p path)
