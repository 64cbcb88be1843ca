-- ===== src/Fetcher/Examples.antt =====
-- The theorem about `Fetch` at one response.
use oafse.Common.{◌≡◌, false, none, some, refl, str_eq}
use oafse.Common.Go.{ok}
use oafse.Port.Fetch.{FetchStatus, FetchData}
use oafse.Fetcher.{Response, Tools, fetch}
use oafse.Fetcher.Fetched.{IsCodeOf, Fetched, fetch-ok}
use oafse.Samples.{net, home, parsed}

abbrev response : Response
response = record {
  request_url = parsed "A.org";
  status_code = 200;
  content_type = "";
  content_type_options = "";
  preview = some "<p>";
  body = some "<p>words";
}

abbrev tools : Tools
tools = record {
  send = λ url. some response;
  detect_media_type = λ bytes. "text/html";
  contains = λ text part. str_eq text part;
  matches_noscript = λ page. false;
  outer_html = λ url. none;
}

abbrev fetched : FetchData
fetched = record {
  url = some home;
  final_url = some home;
  status = FetchStatus.fetch_ok;
  content_type = "text/html";
  raw = "<p>words";
}

run : fetch net tools home ≡ ok fetched
unfolding fetch
run = refl

fetch-ok_example :
    (resp : Response) × (tools.send (net.string home.url) ≡ some resp)
    × IsCodeOf fetched.status resp.status_code
    × Fetched net tools home resp fetched fetched.status
fetch-ok_example = fetch-ok net tools home fetched run
