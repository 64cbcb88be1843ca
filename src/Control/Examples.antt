-- ===== src/Control/Examples.antt =====
-- A reindex at a small Redis.
use oafse.Common.{◌≡◌, String, true, false, none, List, [], ◌∷◌, refl, arith, eq_iff}
use oafse.Common.Go.{ok}
use oafse.Domain.Url.{normalize, normalize_start_url}
use oafse.Redis.Info.{Key, queue, retry_queue, processing_index, url_status, worker, other}
use oafse.Redis.Db.{Db}
use oafse.Redis.Api.{Redis, reference}
use oafse.Redis.Net.{up}
use oafse.Redis.UrlDs.{KeyScan, keys}
use oafse.Redis.Placement.{AllPlaced}
use oafse.Repo.UrlRepo.{repo_take_on}
use oafse.Http.{accepted, serve_crawl}
use oafse.Control.{seed_ports}
use oafse.Control.Cleared.{is_key_of}
use oafse.Control.Uncached.{is_cache_key, IsMissing, ShowsCache}
use oafse.Control.Seeded.{seeded, serve_crawl-seeded}
use oafse.Samples.{net, parsed}

abbrev server : Redis
server = reference (λ a b. true)

abbrev lists : Key → List String
lists queue = "b.org" ∷ []
lists (other k) = "x" ∷ []
lists _ = []

-- A URL in the queue without a record, and a key of another program.
abbrev broken : Db
broken = record { lists = lists; hashes = λ k u. none; sets = λ k. []; zsets = λ k. [] }

abbrev scans : List KeyScan
scans = keys [] up ∷ keys (queue ∷ []) up ∷ []

matching : (k : Key) → is_key_of k (queue ∷ []) ≡ true → is_cache_key k ≡ true
matching queue e = refl
matching retry_queue e = refl
matching processing_index e = refl
matching url_status e = refl
matching (worker id) e = refl
matching (other k) e = ground (arith, e)

complete : (k : Key) → is_key_of k (queue ∷ []) ≡ false → is_cache_key k ≡ true → IsMissing broken k
complete queue e f = ground (arith, e)
complete retry_queue e f = (refl, λ u. refl, refl, refl)
complete processing_index e f = (refl, λ u. refl, refl, refl)
complete url_status e f = (refl, λ u. refl, refl, refl)
complete (worker id) e f = (refl, λ u. refl, refl, refl)
complete (other k) e f = ground (arith, f)

shown : ShowsCache (queue ∷ []) broken
shown = record { matching = matching; complete = complete }

serve_crawl-seeded_example :
    let answer = serve_crawl (seed_ports net server scans up) net "a.org" "true" broken in
    (answer.0 ≡ ok (accepted "https://a.org"))
    × (answer.1 ≡ seeded net server "https://a.org" broken)
    × AllPlaced answer.1
    × ((repo_take_on net server up up "7" 5 6 answer.1).0
        ≡ ok (record { url = normalize net (parsed "a.org"); parent = ""; try = 0 }))
unfolding normalize_start_url
serve_crawl-seeded_example =
    serve_crawl-seeded net server scans "a.org" "https://a.org" "7" (parsed "a.org") 5 6 broken
      (λ e. ground (arith, eq_iff "a.org" "", e)) refl (refl, (refl, tt)) shown refl
