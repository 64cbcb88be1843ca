-- ===== src/Crawler/Push.antt =====
-- `PushURLs` on a sound store, of URLs whose texts print back.
use oafse.Common.{ℕ, zero, suc, String, Option, none, some, List, [], ◌∷◌, map}
use oafse.Common.Go.{GoResult, ok, err, panic}
use oafse.Common.Runs.{Ends, and_then-Ends}
use oafse.Domain.Url.{Url, GoUrl, NetUrl}
use oafse.Storage.Model.{UrlCache}
use oafse.Storage.Mapper.{to_storage_url, to_domain_url, domain_url_of}
use oafse.Redis.Api.{Redis}
use oafse.Redis.Scripts.{push_url}
use oafse.Redis.Queue.{Pipe, delivered, broken, push_each, push_some, push_urls}
use oafse.Redis.Reach.{pushes}
use oafse.Repo.UrlRepo.{with_url, to_domain_urls, repo_push_urls}
use oafse.Crawler.Readable.{IsNormalText, push_url-AllReadable}
use oafse.Crawler.Holding.{push_url-Keeps}
use oafse.Crawler.Sound.{IsSound, Holds, Moves, Moves-refl, Moves-trans, Step-Moves}

-- The text of each URL prints back.
abbrev pub AllNormal : NetUrl → List Url → Type 0
AllNormal net [] = Unit
AllNormal net (u ∷ us) = IsNormalText net (net.string u.url) × AllNormal net us

abbrev TextsNormal : NetUrl → List UrlCache → Type 0
TextsNormal net [] = Unit
TextsNormal net (u ∷ us) = IsNormalText net u.url × TextsNormal net us

stored-TextsNormal :
    (net : NetUrl) (us : List Url)
    → AllNormal net us
    → TextsNormal net (map (to_storage_url net) us)
stored-TextsNormal net [] h = tt
stored-TextsNormal net (u ∷ us) (n, h) = (n, stored-TextsNormal net us h)

abbrev Returns : {A : Type 0} → GoResult A → Type 0
Returns (ok a) = Unit
Returns (err e) = Unit
Returns panic = ⊥

with_url-Returns :
    (net : NetUrl) (x : GoResult Url) (rest : GoResult (List Url))
    → Returns x
    → Returns rest
    → Returns (with_url net x rest)
with_url-Returns net (ok u) (ok us) h k = tt
with_url-Returns net (ok u) (err e) h k = tt
with_url-Returns net (ok u) panic h k = k
with_url-Returns net (err e) rest h k = tt
with_url-Returns net panic rest h k = h

domain_url_of-Returns :
    (net : NetUrl) (u : UrlCache) (o : Option GoUrl) → Returns (domain_url_of net u o)
domain_url_of-Returns net u none = tt
domain_url_of-Returns net u (some g) = tt

to_domain_urls-Returns : (net : NetUrl) (us : List UrlCache) → Returns (to_domain_urls net us)
to_domain_urls-Returns net [] = tt
to_domain_urls-Returns net (u ∷ us) =
    with_url-Returns net (to_domain_url net u) (to_domain_urls net us)
      (domain_url_of-Returns net u (net.parse u.url)) (to_domain_urls-Returns net us)

module _ (net : NetUrl) (r : Redis) (other id held : String) where
  open r use {Store, contents, before}

  abbrev pub MovesHeld : Store → Store → Type 0
  MovesHeld s t = Moves net r other s t × Holds net r id held t

  push_url_rule :
      (url parent : String) (s t : Store)
      → IsNormalText net url
      → MovesHeld s t
      → MovesHeld s (push_url r url parent t).1
  push_url_rule url parent s t n (m, h) = (
    Moves-trans net r other s t (push_url r url parent t).1 m (
        Step-Moves net r other t (push_url r url parent t).1 m.1.1 (pushes url parent)
          (push_url-Keeps net r other t url parent)
          (push_url-AllReadable net r t m.1.1.1 url parent n)),
    push_url-Keeps net r id t url parent held h,
  )

  push_each_rule :
      (us : List UrlCache) (s t : Store)
      → TextsNormal net us
      → MovesHeld s t
      → MovesHeld s (push_each r us t).1
  unfolding push_each
  push_each_rule [] s t n m = m
  push_each_rule (u ∷ us) s t (n, ns) m =
      push_each_rule us s (push_url r u.url u.parent t).1 ns (push_url_rule u.url u.parent s t n m)

  push_some_rule :
      (k : ℕ) (us : List UrlCache) (s t : Store)
      → TextsNormal net us
      → MovesHeld s t
      → MovesHeld s (push_some r k us t)
  unfolding push_some
  push_some_rule zero us s t n m = m
  push_some_rule (suc k) [] s t n m = m
  push_some_rule (suc k) (u ∷ us) s t (n, ns) m =
      push_some_rule k us s (push_url r u.url u.parent t).1 ns
        (push_url_rule u.url u.parent s t n m)

  push_urls_rule :
      (pipe : Pipe) (us : List UrlCache) (s : Store)
      → TextsNormal net us
      → MovesHeld s s
      → Ends (MovesHeld s) (λ _. MovesHeld s) (push_urls r pipe us s)
  unfolding push_urls
  push_urls_rule delivered us s n m = push_each_rule us s s n m
  push_urls_rule (broken k) us s n m = push_some_rule k us s s n m

  converted_rule :
      (s t : Store) (x : GoResult (List Url))
      → Returns x
      → MovesHeld s t
      → Ends (MovesHeld s) (λ _. MovesHeld s) (x, t)
  converted_rule s t (ok us) h m = m
  converted_rule s t (err e) h m = m
  converted_rule s t panic h m = h

  -- `PushURLs` of the repository: wherever its pipeline breaks, it leads by legal steps to a sound
  -- store, and a URL that the worker held is held.
  pub repo_push_urls-Ends :
      (pipe : Pipe) (us : List Url) (s : Store)
      → IsSound net r s
      → Holds net r id held s
      → AllNormal net us
      → Ends (MovesHeld s) (λ _. MovesHeld s) (repo_push_urls net r pipe us s)
  unfolding repo_push_urls
  repo_push_urls-Ends pipe us s sound h n =
      and_then-Ends (MovesHeld s) (λ _. MovesHeld s) (λ _. MovesHeld s)
        (push_urls r pipe (map (to_storage_url net) us) s)
        (λ pushed t. (to_domain_urls net pushed, t))
        (push_urls_rule pipe (map (to_storage_url net) us) s (stored-TextsNormal net us n)
          (Moves-refl net r other s sound, h))
        (λ pushed t m.
          converted_rule s t (to_domain_urls net pushed) (to_domain_urls-Returns net pushed) m)
