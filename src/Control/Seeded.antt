-- ===== src/Control/Seeded.antt =====
-- POST /crawl with a reindex, over Redis, and the first `TakeOn` after it.
use oafse.Common.{ℕ, ◌≡◌, ◌≢◌, ◌∙◌, String, some, List, [], refl, ap, sym, subst, arith, eq_iff}
use oafse.Common.Go.{GoResult, ok, and_then_ok}
use oafse.Domain.Url.{NetUrl, GoUrl, start_at, normalize, normalize_start_url}
use oafse.Redis.Info.{queue, url_status}
use oafse.Redis.Db.{Db}
use oafse.Redis.Api.{Redis, reference}
use oafse.Redis.Net.{up}
use oafse.Redis.Scripts.{push_url, pushed_info, enqueue_urls}
use oafse.Redis.Scripts.Simulation.{observe-push_url, contents-enqueue_urls}
use oafse.Redis.Queue.{queue_take_on, push_one}
use oafse.Redis.Queue.Take.{queue_take_on_oldest}
use oafse.Redis.UrlDs.{KeyScan, start, reset_crawl_cache, take_on, enqueue}
use oafse.Redis.Placement.{AllPlaced}
use oafse.Redis.Reach.{pushes}
use oafse.Redis.Reach.Place.{Step-AllPlaced}
use oafse.Storage.Mapper.{to_domain_url}
use oafse.Repo.UrlRepo.{repo_take_on}
use oafse.Http.{Response, accepted, or_internal, seed, start_seed, serve_crawl}
use oafse.Control.{seed_ports}
use oafse.Control.Uncached.{uncached, ShowsCache, Clears-uncached, uncached-AllPlaced}
use oafse.Control.Cleared.{scanned, AllScanned, reset_crawl_cache-Clears}

module _ (net : NetUrl) (r : Redis) where
  open r use {Store, contents, before}

  -- The database without the crawler's keys, in which `text` has then been pushed.
  abbrev pub seeded : String → Db → Db
  seeded text db = (push_url (reference before) text "" (uncached db)).1

  seeded-AllPlaced : (text : String) (db : Db) → AllPlaced (seeded text db)
  seeded-AllPlaced text db =
      Step-AllPlaced (reference before) {s = uncached db} (pushes text "") (uncached-AllPlaced db)

  enqueued_seed :
      (text : String) (db : Db) (now : ℕ) (t : Store)
      → contents t ≡ seeded text db
      → contents (enqueue_urls r now t) ≡ seeded text db
  unfolding enqueue_urls push_url
  enqueued_seed text db now t shows = contents-enqueue_urls r now t ∙ rw shows refl

  -- On such a store the first `TakeOn` of any worker gives the seed.
  first_take :
      (text id : String) (db : Db) (g : GoUrl) (now later : ℕ) (t : Store)
      → net.parse text ≡ some g
      → contents t ≡ seeded text db
      → (repo_take_on net r up up id now later t).0
        ≡ ok (record { url = normalize net g; parent = ""; try = 0 })
  unfolding repo_take_on take_on enqueue push_url
  first_take text id db g now later t parsed shows =
      let t' = enqueue_urls r now t in
      let same : contents t' ≡ seeded text db = enqueued_seed text db now t shows in
      let got =
        queue_take_on_oldest r id later t' [] text "" (pushed_info (some "") 0)
          (ap (λ (db : Db). db.lists queue) same)
          (ap (λ (db : Db). db.hashes url_status text) same ∙ ground (arith, eq_iff text text))
          refl in
      ap (λ x. x.0)
        (and_then_ok (queue_take_on r up id later t') (record { url = text; parent = ""; try = 0 })
          (λ u s'. (to_domain_url net u, s')) got.0)
      ∙ rw parsed refl

  start_up :
      (text : String) (db : Db) (t : Store)
      → contents t ≡ uncached db
      → (start r up text t).0 ≡ ok tt × contents (start r up text t).1 ≡ seeded text db
  unfolding start push_one push_url
  start_up text db t gone = (refl, ap (λ x. x.1) (observe-push_url r text "" t) ∙ rw gone refl)

  or_internal_ok :
      {A : Type 0} (x : GoResult A × Store) (a : A) (k : A → Store → GoResult Response × Store)
      → x.0 ≡ ok a
      → or_internal x k ≡ k a x.1
  or_internal_ok (result, t) a k e = rw e refl

  served :
      (scans : List KeyScan) (raw_url text : String) (s : Store)
      → raw_url ≢ ""
      → normalize_start_url net raw_url ≡ start_at text
      → (reset_crawl_cache r scans s).0 ≡ ok tt
      → (start r up text (reset_crawl_cache r scans s).1).0 ≡ ok tt
      → serve_crawl (seed_ports net r scans up) net raw_url "true" s
        ≡ (ok (accepted text), (start r up text (reset_crawl_cache r scans s).1).1)
  unfolding serve_crawl
  served scans raw_url text s given starts cleared started =
      let ports = seed_ports net r scans up in
      let here : serve_crawl ports net raw_url "true" s
          ≡ seed ports net "true" (normalize_start_url net raw_url) s =
        ground (arith, eq_iff raw_url "") in
      here
      ∙ ap (λ u. seed ports net "true" u s) starts
      ∙ or_internal_ok (reset_crawl_cache r scans s) tt (λ _ t. start_seed ports net text t) cleared
      ∙ or_internal_ok (start r up text (reset_crawl_cache r scans s).1) tt
          (λ _ t. (ok (accepted text), t)) started

  -- POST /crawl with reindex=true and a URL that `NormalizeStartURL` takes, whose text net/url
  -- parses, where no other client acts in between, Redis answers each request, and SCAN shows the
  -- crawler's keys, each that exists:
  -- the reply is 202 with the start URL. Redis then holds what it held before without the crawler's
  -- keys, and the push of this URL onto that: each URL is in its place, whatever state the keys were
  -- in. The first `TakeOn` after it, of any worker, gives the URL in normal form, with no parent and
  -- no attempt.
  pub serve_crawl-seeded :
      (scans : List KeyScan) (raw_url text id : String) (g : GoUrl) (now later : ℕ) (s : Store)
      → raw_url ≢ ""
      → normalize_start_url net raw_url ≡ start_at text
      → AllScanned scans
      → ShowsCache (scanned scans) (contents s)
      → net.parse text ≡ some g
      → let answer = serve_crawl (seed_ports net r scans up) net raw_url "true" s in
        (answer.0 ≡ ok (accepted text))
        × (contents answer.1 ≡ seeded text (contents s))
        × AllPlaced (contents answer.1)
        × ((repo_take_on net r up up id now later answer.1).0
            ≡ ok (record { url = normalize net g; parent = ""; try = 0 }))
  serve_crawl-seeded scans raw_url text id g now later s given starts answered shown parsed =
      let (cleared, c) = reset_crawl_cache-Clears r scans s answered in
      let gone = Clears-uncached (scanned scans) (contents s) _ shown c in
      let (said, same) = start_up text (contents s) (reset_crawl_cache r scans s).1 gone in
      let done = served scans raw_url text s given starts cleared said in
      let shows = ap (λ x. contents x.1) done ∙ same in
      (
        ap (λ x. x.0) done,
        shows,
        subst AllPlaced (sym shows) (seeded-AllPlaced text (contents s)),
        first_take text id (contents s) g now later _ parsed shows,
      )
