-- ===== src/UseCase/Examples.antt =====
-- The theorems about the use cases at small inputs.
use oafse.Common.{
  ℕ, ◌≡◌, ◌≤◌, String, Option, some, none, List, [], ◌∷◌, map, refl, arith, false, true,
}
use oafse.Common.Go.{ok, err, Error}
use oafse.Domain.Status.{CrawlStatus}
use oafse.Domain.Url.{GoUrl, Url}
use oafse.Domain.Page.{Page}
use oafse.Port.Fetch.{FetchStatus, FetchData}
use oafse.Postgres.Errors.{db_up}
use oafse.Postgres.Pages.{Row, Tables}
use oafse.Postgres.PageDs.Vectors.{backlog_of, HasUniqueUrls}
use oafse.Embedder.{Vector, max_batch_size}
use oafse.Embedder.Batch.{total}
use oafse.Repo.PageRepo.{index_ports}
use oafse.UseCase.Parse
use oafse.UseCase.Parse.Outcome.{
  Answers, Call, saves, pushes, links, marks, scripted, execute_done, AreWrites,
}
use oafse.UseCase.Index.{Event, has_work, listen_error, listen, listening, process}
use oafse.UseCase.Index.Stop.{listen_errors}
use oafse.UseCase.Index.Drain.{process_drains}

abbrev parsed : GoUrl
parsed = record {
  scheme = "https";
  opaque = "";
  user = none;
  host = "a.org";
  path = "/b";
  raw_path = "";
  omit_host = false;
  force_query = false;
  raw_query = "";
  fragment = "";
  raw_fragment = "";
}

abbrev url : Url
url = record { url = parsed; parent = "https://a.org"; try = 0 }

abbrev fetched : FetchData
fetched = record {
  url = some url;
  final_url = some url;
  status = FetchStatus.fetch_ok;
  content_type = "text/html";
  raw = "<a href=/c>";
}

abbrev page : Page ℕ
page = record {
  url = "https://a.org/b";
  title = "B";
  description = "";
  content = "words";
  crawled_at = none;
  vector = none;
}

abbrev answers : Answers ℕ
answers = record {
  taken = url;
  fetched = λ u. ok fetched;
  extracted = λ fd. ok (page, url ∷ []);
  saved = λ page. ok 1;
  linked = ok tt;
  pushed = ok [];
  retried = ok tt;
  marked = λ status. ok tt;
  retry_at = λ try. none;
  url_string = λ u. u.url.host;
}

abbrev writes : List (Call ℕ)
writes = pushes (url ∷ []) ∷ links "https://a.org" 1 ∷ saves page ∷ []

run_writes : (Parse.execute (scripted answers) "1" []).1 ≡ marks "a.org" CrawlStatus.done ∷ writes
unfolding Parse.execute
run_writes = refl

execute_done_example :
    ("a.org" ≡ answers.url_string answers.taken)
    × AreWrites answers (answers.fetched answers.taken) writes
execute_done_example = execute_done answers "1" "a.org" writes run_writes

abbrev errors : List Event
errors = has_work (err Error.embedding) ∷ listen_error ∷ []

listen_errors_example : listen errors 3 ≡ listening 5
listen_errors_example = listen_errors errors 3 (omega arith) tt

-- One page without a vector.
abbrev row : Row ℕ
row = record {
  id = 1;
  url = "https://a.org/b";
  title = "B";
  description = "";
  content = "words";
  crawled_at = none;
  vector = none;
  can_be_vectorized = true;
}

abbrev tables : Tables ℕ
tables = record { next_id = 2; pages = row ∷ []; links = [] }

tables-HasUniqueUrls : HasUniqueUrls tables.pages
tables-HasUniqueUrls u = ground arith

abbrev numbers : String → List ℕ
numbers s = 1 ∷ []

abbrev service : ℕ → List String → Option (List (Vector ℕ))
service start chunk = some (map (λ x. some (numbers x)) chunk)

service_answers :
    (start : ℕ) (chunk : List String)
    → total chunk ≤ max_batch_size
    → service start chunk ≡ some (map (λ x. some (numbers x)) chunk)
service_answers start chunk h = refl

process_drains_example :
    ((process (index_ports (λ v. v) db_up db_up service) tables).0 ≡ ok tt)
    × ((u : String)
        → backlog_of u (process (index_ports (λ v. v) db_up db_up service) tables).1.pages ≡ 0)
process_drains_example =
    process_drains (λ v. v) service numbers tables tables-HasUniqueUrls service_answers
