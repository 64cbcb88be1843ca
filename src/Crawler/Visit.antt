-- ===== src/Crawler/Visit.antt =====
-- What a worker does with a URL outside Redis and Postgres: it fetches the page and extracts it.
use oafse.Common.{
  ◌≡◌, ◌≢◌, String, false, ◌||◌, Option, none, some, List, [], ◌∷◌, str_eq, refl, sym, subst, arith,
}
use oafse.Common.Go.{GoResult, ok, err, panic}
use oafse.Domain.Url.{Url, GoUrl, NetUrl, normalize, new_url_from_parsed}
use oafse.Domain.Page.{Page}
use oafse.Port.Fetch.{FetchStatus, FetchData, classify_status}
use oafse.Fetcher.{Response, Tools, fetch, is_spa}
use oafse.Fetcher.Fetched.{Fetched, fetch-ok}
use oafse.Extractor.{
  HtmlTools, Node, Article, no_node, article, extract_links, page_of, extract_at, extract,
}
use oafse.Extractor.Links.{Each, IsLocalLink, IsHref, extract_links-AreLocal}
use oafse.Crawler.Readable.{IsNormalText}
use oafse.Crawler.Push.{AllNormal}

-- What net/url says of the URLs that it makes. `IsProper` holds of those that parsing, resolution
-- and `normalizeURL` give; an absolute one prints a text which parses to a URL that normalizes
-- and prints to the same text.
pub record UrlLaws (net : NetUrl) : Type 1 where
  pub IsProper : GoUrl → Type 0
  pub parse-IsProper : (text : String) (g : GoUrl) → net.parse text ≡ some g → IsProper g
  pub resolve-IsProper :
      (base ref : GoUrl) → IsProper base → IsProper ref → IsProper (net.resolve base ref)
  pub normalize-IsProper : (g : GoUrl) → IsProper g → IsProper (normalize net g)
  pub prints_back :
      (g : GoUrl)
      → IsProper g
      → (str_eq g.scheme "" || str_eq g.host "") ≡ false
      → IsNormalText net (net.string (normalize net g))

module _ (net : NetUrl) (laws : UrlLaws net) where
  open laws use {IsProper, parse-IsProper, resolve-IsProper, normalize-IsProper, prints_back}

  -- The answer came from a URL that net/http made.
  abbrev pub AnswersProper : Tools → Type 0
  AnswersProper tools =
      (text : String) (resp : Response) → tools.send text ≡ some resp → IsProper resp.request_url

  abbrev pub IsExtractable : FetchData → Type 0
  IsExtractable fd = (final : Url) × (fd.final_url ≡ some final) × IsProper final.url

  abbrev pub FetchedWell : GoResult FetchData → Type 0
  FetchedWell (ok fd) = fd.status ≡ FetchStatus.fetch_ok → IsExtractable fd
  FetchedWell (err e) = Unit
  FetchedWell panic = ⊥

  abbrev pub ExtractedWell : {F : Type 0} → GoResult (Page F × List Url) → Type 0
  ExtractedWell (ok found) = AllNormal net found.1
  ExtractedWell (err e) = Unit
  ExtractedWell panic = ⊥

  fetch-returns : (tools : Tools) (u : Url) → fetch net tools u ≢ panic
  unfolding fetch is_spa new_url_from_parsed classify_status
  fetch-returns tools u = λ e. ground (arith, e)

  final-IsProper :
      (g : GoUrl) (final : Url)
      → IsProper g
      → new_url_from_parsed net g ≡ some final
      → IsProper final.url
  unfolding new_url_from_parsed
  final-IsProper g final h e =
      let same : normalize net g ≡ final.url = ground (arith, e) in
      subst IsProper same (normalize-IsProper g h)

  fetched_rule :
      (tools : Tools) (u : Url) (x : GoResult FetchData)
      → AnswersProper tools
      → fetch net tools u ≡ x
      → FetchedWell x
  fetched_rule tools u (err e) proper same = tt
  fetched_rule tools u panic proper same = absurd (fetch-returns tools u same)
  fetched_rule tools u (ok fd) proper same = λ is_ok.
      let (resp, sent, status, shape) = fetch-ok net tools u fd same in
      let (asked, (final, e, from), text, typed, raw) =
        subst (λ g. Fetched net tools u resp fd g) is_ok shape in
      (final, e, final-IsProper resp.request_url final (proper (net.string u.url) resp sent) from)

  -- `Fetch` does not panic, and where its status is ok the final URL is there and proper.
  pub fetch-FetchedWell :
      (tools : Tools) (u : Url) → AnswersProper tools → FetchedWell (fetch net tools u)
  fetch-FetchedWell tools u proper = fetched_rule tools u (fetch net tools u) proper refl

  local-IsNormalText :
      (base u : Url) (Given : String → Type 0)
      → IsProper base.url
      → IsLocalLink net base Given u
      → IsNormalText net (net.string u.url)
  local-IsNormalText base u Given h
        (parent, try, (ref, (text, given, parsed), host, absolute, same)) =
      subst (λ g. IsNormalText net (net.string g)) (sym same)
        (prints_back (net.resolve base.url ref)
          (resolve-IsProper base.url ref h (parse-IsProper text ref parsed)) absolute)

  local-AllNormal :
      (base : Url) (links : List Url) (Given : String → Type 0)
      → IsProper base.url
      → Each (IsLocalLink net base Given) links
      → AllNormal net links
  local-AllNormal base [] Given h each = tt
  local-AllNormal base (u ∷ us) Given h (l, ls) =
      (local-IsNormalText base u Given h l, local-AllNormal base us Given h ls)

  module _ (F : Type 0) (html : HtmlTools) where
    page_of-ExtractedWell :
        (final : Url) (links : List Url) (o : Option Article)
        → AllNormal net links
        → ExtractedWell (page_of net {F = F} html final links o)
    page_of-ExtractedWell final links none h = tt
    page_of-ExtractedWell final links (some no_node) h = h
    page_of-ExtractedWell final links (some (article title excerpt none)) h = tt
    page_of-ExtractedWell final links (some (article title excerpt (some text))) h = h

    extract_at-ExtractedWell :
        (final : Url) (raw : String) (o : Option Node)
        → IsProper final.url
        → ExtractedWell (extract_at net {F = F} html (some final) raw o)
    extract_at-ExtractedWell final raw none h = tt
    extract_at-ExtractedWell final raw (some doc) h =
        page_of-ExtractedWell final (extract_links net doc final) (html.parse_article raw final.url)
          (local-AllNormal final (extract_links net doc final) (λ text. IsHref text doc) h
            (extract_links-AreLocal net doc final))

    -- `Extract` of a page with a proper final URL does not panic, and its links print back.
    pub extract-ExtractedWell :
        (fd : FetchData) → IsExtractable fd → ExtractedWell (extract net {F = F} html fd)
    unfolding extract
    extract-ExtractedWell fd (final, e, h) =
        rw e (extract_at-ExtractedWell final fd.raw (html.parse_html fd.raw) h)
