-- ===== src/Extractor.antt =====
-- internal/infrastructure/extractor/extractor.go: the links and the text of a page. The HTML parser
-- and the readability library are parameters.
pub mod Links
pub mod Exact
mod Examples
use oafse.Common.{
  String, Bool, true, false, ◌&&◌, not, Option, none, some, List, [], ◌∷◌, ◌++◌, str_eq,
  if◌then◌else◌,
}
use oafse.Common.Int.{ℤ}
use oafse.Common.Go.{GoResult, ok, err, panic, Error}
use oafse.Domain.Url.{Url, GoUrl, NetUrl, new_url_from_parsed}
use oafse.Domain.Page.{Page}
use oafse.Port.Fetch.{FetchData}

pub record Attr : Type 0 where
  pub key : String
  pub val : String

-- `html.Node` of x/net/html: an element, or a node of another type; the children by FirstChild and
-- NextSibling.
mutual
  pub data Node : Type 0 where
    element : String → List Attr → Nodes → Node
    other : Nodes → Node

  pub data Nodes : Type 0 where
    no_child : Nodes
    child : Node → Nodes → Nodes

-- What the readability library finds: `art.Node != nil`, with the text that `RenderText` writes.
pub data Article : Type 0 where
  no_node : Article
  article : String → String → Option String → Article

-- `html.Parse`, `parser.Parse` and `time.Now`.
pub record HtmlTools : Type 0 where
  pub parse_html : String → Option Node
  pub parse_article : String → GoUrl → Option Article
  pub now : ℤ

module _ (net : NetUrl) where
  abbrev pub with_parent : Url → Option Url → List Url → List Url
  with_parent base none links = links
  with_parent base (some cand) links = links ++ record cand { parent = net.string base.url } ∷ []

  abbrev pub add_ref : Url → Option GoUrl → List Url → List Url
  add_ref base none links = links
  add_ref base (some ref) links =
      let abs = net.resolve base.url ref in
      if str_eq (net.hostname base.url) (net.hostname abs)
      then with_parent base (new_url_from_parsed net abs) links
      else links

  -- The loop over the attributes of an <a>.
  unfoldable pub add_hrefs : Url → List Attr → List Url → List Url
  unfolding new_url_from_parsed
  add_hrefs base [] links = links
  add_hrefs base (attr ∷ attrs) links = add_hrefs base attrs (
      if str_eq attr.key "href" && not (str_eq attr.val "")
      then add_ref base (net.parse attr.val) links
      else links)

  unfoldable mutual
    unfolding add_hrefs

    pub dfs : Url → Node → List Url → List Url
    dfs base (element name attrs nodes) links =
        dfs_each base nodes (if str_eq name "a" then add_hrefs base attrs links else links)
    dfs base (other nodes) links = dfs_each base nodes links

    pub dfs_each : Url → Nodes → List Url → List Url
    dfs_each base no_child links = links
    dfs_each base (child n nodes) links = dfs_each base nodes (dfs base n links)

  unfoldable pub extract_links : Node → Url → List Url
  unfolding dfs
  extract_links root base = dfs base root []

  module _ {F : Type 0} (tools : HtmlTools) where
    -- The page; the vector stays nil.
    abbrev pub page_at : Url → String → String → String → Page F
    page_at final title description content = record {
      url = net.string final.url;
      title = title;
      description = description;
      content = content;
      crawled_at = some tools.now;
      vector = none;
    }

    abbrev pub page_of : Url → List Url → Option Article → GoResult (Page F × List Url)
    page_of final links none = err Error.content
    page_of final links (some no_node) = ok (page_at final "" "" "", links)
    page_of final links (some (article title excerpt none)) = err Error.content
    page_of final links (some (article title excerpt (some text))) =
        ok (page_at final title excerpt text, links)

    -- A nil final URL is read where a link is met, or else by `parser.Parse`.
    abbrev pub extract_at : Option Url → String → Option Node → GoResult (Page F × List Url)
    extract_at final raw none = err Error.content
    extract_at none raw (some doc) = panic
    extract_at (some final) raw (some doc) =
        page_of final (extract_links doc final) (tools.parse_article raw final.url)

    unfoldable pub extract : FetchData → GoResult (Page F × List Url)
    unfolding extract_links
    extract fd = extract_at fd.final_url fd.raw (tools.parse_html fd.raw)
