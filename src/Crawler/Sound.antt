-- ===== src/Crawler/Sound.antt =====
-- Stores that the crawler keeps sound, and what a worker does to them on its way.
use oafse.Common.{◌≡◌, ◌≢◌, String, Option, none, some, refl}
use oafse.Common.Runs.{Ends}
use oafse.Domain.Url.{NetUrl}
use oafse.Storage.Model.{CrawlStatus}
use oafse.Redis.Info.{UrlInfo, url_status}
use oafse.Redis.Api.{Redis}
use oafse.Redis.Net.{Link, up, request_lost, reply_lost, call}
use oafse.Redis.Placement.{AllPlaced}
use oafse.Redis.Reach.{Step, Reach, here, next}
use oafse.Redis.Reach.Place.{Step-AllPlaced}
use oafse.Crawler.Readable.{AllReadable}

-- The record says that the worker holds the URL.
abbrev pub IsHeld : String → Option UrlInfo → Type 0
IsHeld worker_id none = ⊥
IsHeld worker_id (some info) = (info.status ≡ CrawlStatus.processing) × (info.worker_id ≡ worker_id)

module _ (net : NetUrl) (r : Redis) where
  open r use {Store, contents}

  -- Each URL has its place, and each record can be read.
  abbrev pub IsSound : Store → Type 0
  IsSound s = AllPlaced (contents s) × AllReadable net (contents s)

  -- The worker holds the URL in the store.
  abbrev pub Holds : String → String → Store → Type 0
  Holds worker_id url s = IsHeld worker_id ((contents s).hashes url_status url)

  pub Reach-trans : {s t u : Store} → Reach r s t → Reach r t u → Reach r s u
  Reach-trans p here = p
  Reach-trans p (next q step) = next (Reach-trans p q) step

  module _ (other : String) where
    -- What the other worker held, it still holds.
    abbrev pub Keeps : Store → Store → Type 0
    Keeps s t = (url : String) → Holds other url s → Holds other url t

    -- Legal steps lead from `s` to `t`, which is sound, and the other worker holds what it held.
    abbrev pub Moves : Store → Store → Type 0
    Moves s t = Reach r s t × (Keeps s t × IsSound t)

    pub Moves-refl : (s : Store) → IsSound s → Moves s s
    Moves-refl s h = (here, (λ url held. held, h))

    pub Moves-trans : (s t u : Store) → Moves s t → Moves t u → Moves s u
    Moves-trans s t u (p, (f, h)) (q, (g, k)) =
        (Reach-trans p q, (λ url held. g url (f url held), k))

    pub Step-Moves :
        (s t : Store)
        → IsSound s
        → Step r s t
        → Keeps s t
        → AllReadable net (contents t)
        → Moves s t
    Step-Moves s t h step keeps readable =
        (next here step, (keeps, (Step-AllPlaced r step h.0, readable)))

  -- A request may be lost, or its reply.
  pub call-Ends :
      {A : Type 0} (link : Link) (m : Store → A × Store) (s : Store) (E : Store → Type 0)
      (P : A → Store → Type 0)
      → E s
      → E (m s).1
      → P (m s).0 (m s).1
      → Ends E P (call link m s)
  call-Ends up m s E P before after result = result
  call-Ends request_lost m s E P before after result = before
  call-Ends reply_lost m s E P before after result = after

  -- A request whose reply is not lost.
  pub call_settled :
      {A : Type 0} (link : Link) (m : Store → A × Store) (s : Store) (E : Store → Type 0)
      (P : A → Store → Type 0)
      → link ≢ reply_lost
      → E s
      → P (m s).0 (m s).1
      → Ends E P (call link m s)
  call_settled up m s E P h before result = result
  call_settled request_lost m s E P h before result = before
  call_settled reply_lost m s E P h before result = absurd (h refl)
