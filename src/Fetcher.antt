-- ===== src/Fetcher.antt =====
-- internal/infrastructure/fetcher/fetcher.go: `Fetch` and what it calls. The HTTP client, the
-- browser and the tests of net/http, regexp and strings are parameters. Metrics are left out.
pub mod Fetched
mod Examples
use oafse.Common.{
  ℕ, String, Bool, true, false, ◌&&◌, ◌||◌, not, Option, none, some, List, [], ◌∷◌, str_eq,
  if◌then◌else◌,
}
use oafse.Common.Go.{GoResult, ok, err, Error}
use oafse.Domain.Url.{Url, GoUrl, NetUrl, new_url_from_parsed}
use oafse.Port.Fetch.{FetchStatus, FetchData, classify_status}

-- A response: the URL of the last request, the headers read here, what `Peek(512)` gave (none is an
-- error other than the end of the body) and the whole body (none is a read error).
pub record Response : Type 0 where
  pub request_url : GoUrl
  pub status_code : ℕ
  pub content_type : String
  pub content_type_options : String
  pub preview : Option String
  pub body : Option String

-- `http.NewRequestWithContext` with `client.Do`, `http.DetectContentType` (its media type, without
-- the part behind ";"), `strings.Contains`, the pattern of <noscript>, and the HTML that Chrome shows.
pub record Tools : Type 0 where
  pub send : String → Option Response
  pub detect_media_type : String → String
  pub contains : String → String → Bool
  pub matches_noscript : String → Bool
  pub outer_html : String → Option String

abbrev pub spa_markers : List String
spa_markers =
    "<div id=\"root\"" ∷ "<div id=\"app\"" ∷ "<div id=\"__next\"" ∷ "data-reactroot" ∷ "ng-version"
    ∷ "__NEXT_DATA__" ∷ "__NUXT__" ∷ "window.__INITIAL_STATE__" ∷ []

module _ (net : NetUrl) (tools : Tools) where
  abbrev pub contains_any : List String → String → Bool
  contains_any [] cont = false
  contains_any (marker ∷ markers) cont = tools.contains cont marker || contains_any markers cont

  unfoldable pub is_spa : String → Bool
  is_spa cont = contains_any spa_markers cont || tools.matches_noscript cont

  abbrev pub is_text : String → Bool
  is_text content_type =
      tools.contains content_type "text/plain"
      || tools.contains content_type "text/html"
      || tools.contains content_type "text/markdown"

  -- The HTML of the page, with the two fields that `Fetch` adds to the result.
  abbrev pub parse_via_chrome : Url → Option Url → String → Option String → GoResult FetchData
  parse_via_chrome u final_url content_type none = err Error.content
  parse_via_chrome u final_url content_type (some html) = ok (record {
    url = some u;
    final_url = final_url;
    status = FetchStatus.fetch_ok;
    content_type = content_type;
    raw = html;
  })

  abbrev pub read_body : Url → Option Url → String → Option String → GoResult FetchData
  read_body u final_url content_type none = err Error.transport
  read_body u final_url content_type (some page) =
      if is_spa page
      then parse_via_chrome u final_url content_type (tools.outer_html (net.string u.url))
      else ok (record {
        url = some u;
        final_url = final_url;
        status = FetchStatus.fetch_ok;
        content_type = content_type;
        raw = page;
      })

  abbrev pub if_text : Url → Option Url → String → Option String → GoResult FetchData
  if_text u final_url content_type body =
      if not (is_text content_type)
      then err Error.not_text
      else read_body u final_url content_type body

  -- The header decides only where it is set and sniffing is forbidden.
  abbrev pub sniffed : Url → Option Url → Response → Option String → GoResult FetchData
  sniffed u final_url resp preview =
      if str_eq resp.content_type "" || not (str_eq resp.content_type_options "nosniff")
      then elim preview [
        | none ↦ err Error.transport
        | some bytes ↦ if_text u final_url (tools.detect_media_type bytes) resp.body
      ]
      else if_text u final_url resp.content_type resp.body

  abbrev pub on_class : Url → Option Url → Response → FetchStatus → GoResult FetchData
  on_class u final_url resp FetchStatus.fetch_ok = sniffed u final_url resp resp.preview
  on_class u final_url resp status =
      ok (record { url = none; final_url = none; status = status; content_type = ""; raw = "" })

  abbrev pub with_final : Url → Response → Option Url → GoResult FetchData
  with_final u resp none = err Error.bad_url
  with_final u resp (some final_url) =
      on_class u (some final_url) resp (classify_status resp.status_code)

  abbrev pub on_response : Url → Option Response → GoResult FetchData
  on_response u none = err Error.transport
  on_response u (some resp) = with_final u resp (new_url_from_parsed net resp.request_url)

  unfoldable pub fetch : Url → GoResult FetchData
  unfolding new_url_from_parsed classify_status is_spa
  fetch u = on_response u (tools.send (net.string u.url))
