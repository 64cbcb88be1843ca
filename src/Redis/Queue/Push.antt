-- ===== src/Redis/Queue/Push.antt =====
-- `PushURLs` lets each URL into the queue once.
use oafse.Common.{
  ℕ, ◌+◌, ◌≡◌, String, Bool, true, false, not, ◌||◌, Option, none, some, List, [], ◌∷◌, ap, refl,
  arith, str_eq, eq_iff, if◌then◌else◌,
}
use oafse.Storage.Model.{UrlCache}
use oafse.Redis.Info.{url_status, UrlInfo}
use oafse.Redis.Db.{Db}
use oafse.Redis.Api.{Redis}
use oafse.Redis.Scripts.{hget, push_url, push_unseen, pushed_info}
use oafse.Redis.Scripts.Simulation.{observe-push_unseen}
use oafse.Redis.Net.{ok}
use oafse.Redis.Queue.{push_each, push_urls, delivered}

abbrev pub is_known : Option UrlInfo → Bool
is_known none = false
is_known (some _) = true

abbrev pub url_count : String → List UrlCache → ℕ
url_count u [] = 0
url_count u (c ∷ cs) = (if str_eq c.url u then 1 else 0) + url_count u cs

abbrev pub has_url : String → List UrlCache → Bool
has_url u [] = false
has_url u (c ∷ cs) = str_eq c.url u || has_url u cs

module _ (r : Redis) where
  open r use {Store}

  hget-push_unseen :
      (url parent u : String) (s : Store)
      → hget r u (push_unseen r url parent none s).1
        ≡ (if str_eq url u then some (pushed_info (some parent) 0) else hget r u s)
  hget-push_unseen url parent u s =
      ap (λ (o : Bool × Db). o.1.hashes url_status u) (observe-push_unseen r url parent none s)

  known-push_unseen :
      (url parent u : String) (o : Option UrlInfo) (s : Store)
      → hget r url s ≡ o
      → (is_known (hget r u (push_unseen r url parent o s).1)
          ≡ (is_known (hget r u s) || str_eq url u))
        × ((push_unseen r url parent o s).0 ≡ not (is_known o))
  known-push_unseen url parent u none s e =
      (ground (arith, eq_iff url u, hget-push_unseen url parent u s), refl)
  known-push_unseen url parent u (some i) s e = (ground (arith, eq_iff url u), refl)

  known-push_url :
      (url parent u : String) (s : Store)
      → (is_known (hget r u (push_url r url parent s).1) ≡ (is_known (hget r u s) || str_eq url u))
        × ((push_url r url parent s).0 ≡ not (is_known (hget r url s)))
  unfolding push_url
  known-push_url url parent u s = known-push_unseen url parent u (hget r url s) s refl

  known-push_each :
      (us : List UrlCache) (u : String) (s : Store)
      → (is_known (hget r u (push_each r us s).1) ≡ (is_known (hget r u s) || has_url u us))
        × (url_count u (push_each r us s).0
            ≡ (if is_known (hget r u s) then 0 else if has_url u us then 1 else 0))
  unfolding push_each
  known-push_each [] u s = ground arith
  known-push_each (c ∷ cs) u s = ground (
    arith,
    eq_iff c.url u,
    known-push_url c.url c.parent u s,
    known-push_each cs u (push_url r c.url c.parent s).1,
  )

-- When a `PushURLs` over any Redis server succeeds, the URLs that it returns are those that had no
-- status record, each once, however often the argument holds them; and afterwards a URL has a
-- record exactly if it had one before or stands in the argument.
pub push_urls_once :
    (r : Redis) (us pushed : List UrlCache) (s s' : r.Store) (u : String)
    → push_urls r delivered us s ≡ (ok pushed, s')
    → (url_count u pushed ≡ (if is_known (hget r u s) then 0 else if has_url u us then 1 else 0))
      × (is_known (hget r u s') ≡ (is_known (hget r u s) || has_url u us))
unfolding push_urls
push_urls_once r us pushed s s' u e = ground (arith, known-push_each r us u s)
