-- ===== src/Http.antt =====
-- internal/delivery/http: the handlers of the two servers. The query parameters are read by
-- net/http; an absent one is the empty text.
pub mod Answers
mod Examples
use oafse.Common.{
  ℕ, String, Bool, true, false, Option, none, some, List, [], ◌∷◌, map, str_eq, if◌then◌else◌,
}
use oafse.Common.Int.{ℤ, pos, negsuc}
use oafse.Common.Go.{GoResult, ok, err, panic, Error}
use oafse.Domain.Url.{NetUrl, StartUrl, start_at, parse_failed, missing_host, normalize_start_url}
use oafse.Domain.Page.{Page}

-- The fields of json.Page.
pub record FoundPage : Type 0 where
  pub url : String
  pub title : String
  pub description : String

-- A response: 202 with the URL, 200 with the pages, 400, or 500; `recovered` is the 500 that the
-- middleware writes for a panic. The texts of errors are left out.
pub data Response : Type 0 where
  accepted : String → Response
  found : List FoundPage → Response
  bad_request internal_error recovered : Response

abbrev pub found_page : {F : Type 0} → Page F → FoundPage
found_page page = record { url = page.url; title = page.title; description = page.description }

abbrev pub to_search_response : {F : Type 0} → List (Page F) → List FoundPage
to_search_response pages = map found_page pages

abbrev pub with_recovery : {S : Type 0} → GoResult Response × S → Response × S
with_recovery (ok response, s) = (response, s)
with_recovery (err e, s) = (internal_error, s)
with_recovery (panic, s) = (recovered, s)

-- `if err := …; err != nil { WriteError(…, 500); return }`
abbrev pub or_internal :
    {S A : Type 0} → GoResult A × S → (A → S → GoResult Response × S) → GoResult Response × S
or_internal (ok a, s) k = k a s
or_internal (err e, s) k = (ok internal_error, s)
or_internal (panic, s) k = (panic, s)

-- The part of the URL repository that the crawl handler calls.
pub record SeedPorts (S : Type 0) : Type 0 where
  pub reset_crawl_cache : S → GoResult (Unit {0}) × S
  pub start : String → S → GoResult (Unit {0}) × S

module _ {S : Type 0} (p : SeedPorts S) (net : NetUrl) where
  abbrev pub start_seed : String → S → GoResult Response × S
  start_seed url s = or_internal (p.start url s) λ _ s'. (ok (accepted url), s')

  abbrev pub seed : String → StartUrl → S → GoResult Response × S
  seed reindex parse_failed s = (ok bad_request, s)
  seed reindex missing_host s = (ok bad_request, s)
  seed reindex (start_at url) s =
      if str_eq reindex "true"
      then or_internal (p.reset_crawl_cache s) (λ _ s'. start_seed url s')
      else start_seed url s

  unfoldable pub serve_crawl : String → String → S → GoResult Response × S
  unfolding normalize_start_url
  serve_crawl raw_url reindex s =
      if str_eq raw_url ""
      then (ok bad_request, s)
      else seed reindex (normalize_start_url net raw_url) s

-- `strconv.Atoi` is a parameter: none is its error.
module _ {S F : Type 0} (execute : String → ℕ → S → GoResult (List (Page F)) × S)
    (atoi : String → Option ℤ) where
  abbrev pub positive : Option ℤ → Option ℕ
  positive none = none
  positive (some (negsuc n)) = none
  positive (some (pos ℕ.zero)) = none
  positive (some (pos (ℕ.suc n))) = some (ℕ.suc n)

  abbrev pub limit_of : String → Option ℕ
  limit_of limit = if str_eq limit "" then some 10 else positive (atoi limit)

  abbrev pub search : String → Option ℕ → S → GoResult Response × S
  search query none s = (ok bad_request, s)
  search query (some limit) s =
      or_internal (execute query limit s) λ pages s'. (ok (found (to_search_response pages)), s')

  unfoldable pub serve_search : String → String → S → GoResult Response × S
  serve_search query limit s =
      if str_eq query "" then (ok bad_request, s) else search query (limit_of limit) s
