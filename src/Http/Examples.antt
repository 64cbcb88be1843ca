-- ===== src/Http/Examples.antt =====
-- The theorems about the handlers at small inputs.
use oafse.Common.{ℕ, ◌≡◌, String, Option, none, some, List, [], ◌∷◌, refl, str_eq, if◌then◌else◌}
use oafse.Common.Int.{ℤ, pos}
use oafse.Common.Go.{GoResult, ok}
use oafse.Domain.Page.{Page}
use oafse.Http.{accepted, found, bad_request, serve_crawl, serve_search, to_search_response}
use oafse.Http.Answers.{resets, starts, scripted}
use oafse.Samples.{net}

seeded :
    serve_crawl (scripted (ok tt) (ok tt)) net "a.org" "true" []
    ≡ (ok (accepted "https://a.org"), starts "https://a.org" ∷ resets ∷ [])
unfolding serve_crawl
seeded = refl

abbrev page : Page ℕ
page = record {
  url = "a.org";
  title = "A";
  description = "";
  content = "words";
  crawled_at = none;
  vector = some (1 ∷ []);
}

abbrev pages : String → ℕ → ℕ → GoResult (List (Page ℕ)) × ℕ
pages query limit s = (ok (page ∷ []), s)

abbrev atoi : String → Option ℤ
atoi text = if str_eq text "3" then some (pos 3) else none

three : serve_search pages atoi "words" "3" 0 ≡ (ok (found (to_search_response (page ∷ []))), 0)
unfolding serve_search
three = refl

no_limit : serve_search pages atoi "words" "x" 0 ≡ (ok bad_request, 0)
unfolding serve_search
no_limit = refl
