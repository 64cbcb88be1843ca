-- ===== src/Http/Answers.antt =====
-- What an answer of a handler tells.
use oafse.Common.{
  ℕ, ◌<◌, ◌≡◌, ◌≢◌, String, Option, some, List, [], ◌∷◌, arith, str_eq, if◌then◌else◌, eq_iff,
}
use oafse.Common.Int.{ℤ}
use oafse.Common.Go.{GoResult, ok}
use oafse.Domain.Url.{NetUrl, start_at, normalize_start_url}
use oafse.Domain.Page.{Page}
use oafse.Http.{
  FoundPage, accepted, found, SeedPorts, serve_crawl, to_search_response, limit_of, serve_search,
}

-- The calls of the crawl handler, the latest first.
pub data SeedCall : Type 0 where
  resets : SeedCall
  starts : String → SeedCall

abbrev pub scripted : GoResult (Unit {0}) → GoResult (Unit {0}) → SeedPorts (List SeedCall)
scripted reset start = record {
  reset_crawl_cache = λ log. (reset, resets ∷ log);
  start = λ url log. (start, starts url ∷ log);
}

module _ (net : NetUrl) (reset start : GoResult (Unit {0})) (raw_url reindex url : String) where
  -- Where the crawl handler answers 202 with a URL, its parameter is not empty and has that start
  -- URL, the start succeeded, and so did the reset, with reindex "true"; and it made these calls
  -- only: the reset, with reindex "true", and then one start with that URL.
  pub serve_crawl_accepted :
      (serve_crawl (scripted reset start) net raw_url reindex []).0 ≡ ok (accepted url)
      → (raw_url ≢ "")
        × (normalize_start_url net raw_url ≡ start_at url)
        × (start ≡ ok tt)
        × ((if str_eq reindex "true" then reset else ok tt) ≡ ok tt)
        × ((serve_crawl (scripted reset start) net raw_url reindex []).1
            ≡ starts url ∷ (if str_eq reindex "true" then resets ∷ [] else []))
  unfolding serve_crawl
  serve_crawl_accepted e = ground (arith, eq_iff raw_url "")

module _ {S F : Type 0} (execute : String → ℕ → S → GoResult (List (Page F)) × S)
    (atoi : String → Option ℤ) (query limit : String) (s : S) where
  -- Where the search handler answers 200, the query was not empty and the use case was run with a
  -- positive limit, 10 where none was given, and the answer shows the pages that it found, in
  -- order.
  pub serve_search_found :
      (pages : List FoundPage)
      → (serve_search execute atoi query limit s).0 ≡ ok (found pages)
      → (query ≢ "")
        × ((n : ℕ) × (0 < n)
            × (limit_of execute atoi limit ≡ some n)
            × ((ps : List (Page F)) × ((execute query n s).0 ≡ ok ps)
                × (pages ≡ to_search_response ps)))
  unfolding serve_search
  serve_search_found pages e = ground (arith, eq_iff query "")
