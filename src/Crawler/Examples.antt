-- ===== src/Crawler/Examples.antt =====
-- The crawler at one page: a URL is fetched and saved, and the page's link is pushed, while the
-- control API pushes a URL and another worker takes what there is.
use oafse.Common.{
  ◌⊎◌, ℕ, ◌≡◌, ◌≢◌, String, true, false, none, some, [], ◌∷◌, refl, str_eq, eq_iff, arith,
}
use oafse.Common.Int.{pos}
use oafse.Common.Runs.{Ends}
use oafse.Domain.Url.{NetUrl, normalize}
use oafse.Storage.Model.{CrawlStatus}
use oafse.Redis.Db.{Db}
use oafse.Redis.Api.{Redis, reference}
use oafse.Redis.Net.{up}
use oafse.Redis.Queue.{delivered, push_urls, push_one}
use oafse.Redis.Scripts.{hget, push_url, pop_url, enqueue_urls, mark_processed}
use oafse.Redis.Reach.{pushes}
use oafse.Redis.Placement.{status_of}
use oafse.Redis.UrlDs.{take_on}
use oafse.Redis.Processing.{processing_mark_processed}
use oafse.Repo.UrlRepo.{repo_take_on, repo_push_urls, repo_mark_processed}
use oafse.Repo.PageRepo.{save_page}
use oafse.Postgres.PageDs.{insert_page}
use oafse.Postgres.Errors.{db_up}
use oafse.Fetcher.{Response, fetch}
use oafse.Extractor.{element, no_child, article, extract}
use oafse.UseCase.Parse.{execute}
use oafse.Crawler.{Outside, World, crawl_ports, rounds}
use oafse.Crawler.Readable.{IsNormalText, push_url-AllReadable}
use oafse.Crawler.Holding.{push_url-Keeps}
use oafse.Crawler.Sound.{IsSound, Moves, Step-Moves}
use oafse.Crawler.Visit.{UrlLaws}
use oafse.Crawler.Laws.{StatementFailed}
use oafse.Crawler.Gains.{GainsNone}
use oafse.Crawler.Turns.{Turns, nothing, turn, seeds, takes}
use oafse.Crawler.Among.{IsThird, RunsAmong}
use oafse.Crawler.Guarantee.{rounds_guarantee}
use oafse.Redis.UrlDs
use oafse.Samples.{parsed}

-- A library for URLs that are a host only.
abbrev hosts : NetUrl
hosts = record {
  parse = λ s. some (parsed s);
  string = λ u. u.host;
  hostname = λ u. u.scheme;
  resolve = λ base ref. ref;
  to_lower = λ s. s;
  to_lower_idem = λ s. refl;
}

any-IsNormalText : (text : String) → IsNormalText hosts text
unfolding normalize
any-IsNormalText text = (parsed text, refl, refl)

abbrev laws : UrlLaws hosts
laws = record {
  IsProper = λ g. Unit;
  parse-IsProper = λ text g e. tt;
  resolve-IsProper = λ base ref b f. tt;
  normalize-IsProper = λ g h. tt;
  prints_back = λ g h absolute. any-IsNormalText (hosts.string (normalize hosts g));
}

abbrev server : Redis
server = reference (λ a b. true)

abbrev empty : Db
empty = record { lists = λ k. []; hashes = λ k u. none; sets = λ k. []; zsets = λ k. [] }

empty-IsSound : IsSound hosts server empty
empty-IsSound = (λ u. omega arith, λ u. tt)

abbrev push : String → Db → Db
push url s = (push_url server url "" s).1

-- Worker 9 takes what there is, behind a push of the control API.
abbrev beside : ℕ → Db → Db
beside n s = (repo_take_on hosts server up up "9" n n (UrlDs.start server up "b.org" s).1).1

beside-Turns : (n : ℕ) (s : Db) → Turns hosts server (IsThird "7" "8") s (beside n s)
beside-Turns n s =
    turn "9" (seeds up "b.org" nothing (any-IsNormalText "b.org"))
      (λ e. ground (arith, eq_iff "9" "7", e), λ e. ground (arith, eq_iff "9" "8", e))
      (takes up up n n)

abbrev response : Response
response = record {
  request_url = parsed "a.org";
  status_code = 200;
  content_type = "text/html";
  content_type_options = "nosniff";
  preview = some "<a>";
  body = some "<a>b";
}

abbrev outside : Outside Db ℕ
outside = record {
  others = beside;
  enqueue_at = λ n. n;
  take_at = λ n. n;
  enqueue_link = λ n. up;
  take_link = λ n. up;
  metadata_link = λ n. up;
  push_pipe = λ n. delivered;
  settle_link = λ n. up;
  now = λ n. pos n;
  now_later = λ n. pos n;
  retry_now = λ n. pos n;
  jitter = λ n. 0;
  convert = λ n. n;
  tools = λ n. record {
    send = λ url. some response;
    detect_media_type = λ bytes. "text/html";
    contains = λ text part. str_eq text part;
    matches_noscript = λ page. false;
    outer_html = λ url. none;
  };
  html = λ n. record {
    parse_html = λ raw. some (element "a" (record { key = "href"; val = "c.org" } ∷ []) no_child);
    parse_article = λ raw url. some (article "A" "" (some "b"));
    now = pos n;
  };
  page_link = λ n. db_up;
  link_link = λ n. db_up;
  l2_normalize = λ v. v;
}

distinct_ids : ◌≢◌ {A = String} "7" "8"
distinct_ids = λ e. ground (arith, eq_iff "7" "8", e)

among : RunsAmong hosts laws server outside "7" "8"
among = record {
  distinct = distinct_ids;
  turns = λ n s sound. beside-Turns n s;
  settles = λ n. λ e. cc;
  answers_proper = λ n text resp e. tt;
}

abbrev start : World Db ℕ
start = record {
  store = push "a.org" empty;
  tables = record { next_id = 1; pages = []; links = [] };
  calls = 0;
  attempts = [];
}

start-IsSound : IsSound hosts server start.store
start-IsSound =
    (Step-Moves hosts server "8" empty (push "a.org" empty) empty-IsSound (pushes "a.org" "")
      (push_url-Keeps hosts server "8" empty "a.org" "")
      (push_url-AllReadable hosts server empty empty-IsSound.1 "a.org" ""
        (any-IsNormalText "a.org"))).1.1

abbrev after : World Db ℕ
after = rounds hosts server outside 1 "7" start

-- Worker 9 has taken the first URL and the link of the page, and the first round has marked the
-- page of the start URL done.
first_round :
    (status_of (hget server "a.org" after.store) ≡ CrawlStatus.processing)
    × (status_of (hget server "b.org" after.store) ≡ CrawlStatus.done)
    × (status_of (hget server "c.org" after.store) ≡ CrawlStatus.processing)
unfolding rounds execute repo_take_on take_on pop_url enqueue_urls push_url fetch extract save_page
    insert_page repo_push_urls push_urls repo_mark_processed processing_mark_processed
    mark_processed UrlDs.start push_one
first_round = (refl, refl, refl)

rounds_guarantee_example :
    Ends
      (λ t.
        Turns hosts server (λ b. b ≢ "8") start.store t.store
        × Moves hosts server "8" start.store t.store)
      (λ _ t.
        (Turns hosts server (λ b. b ≢ "8") start.store t.store
          × Moves hosts server "8" start.store t.store)
        × (GainsNone hosts server "7" after.store t.store
            ⊎ StatementFailed outside after.calls t.calls))
      (execute (crawl_ports hosts server outside) "7" after)
rounds_guarantee_example =
    rounds_guarantee hosts laws server outside "7" "8" among 1 start start-IsSound
