-- ===== src/Crawler.antt =====
-- internal/di/di.go: the crawler, with the parts that it puts together. One world holds the store
-- of Redis and the tables of Postgres.
pub mod Readable
pub mod Sound
pub mod Holding
pub mod Gains
pub mod Only
pub mod Laws
pub mod Filled
pub mod Take
pub mod Settle
pub mod Push
pub mod Visit
pub mod Run
pub mod Spares
pub mod Recovered
pub mod Turns
pub mod Among
pub mod Guarantee
mod Examples
use oafse.Common.{ℕ, zero, suc, ◌*◌, String, Option, List, ◌∷◌}
use oafse.Common.Int.{ℤ, pos}
use oafse.Common.Go.{GoResult, ok}
use oafse.Domain.Url.{NetUrl, Url}
use oafse.Domain.Retry.{CrawlConfig, calc_retry_time}
use oafse.Metrics.{AttemptStatus}
use oafse.Port.Crawl.{CrawlPorts}
use oafse.Redis.Api.{Redis}
use oafse.Redis.Net.{Link}
use oafse.Redis.Queue.{Pipe}
use oafse.Postgres.Errors.{DbLink}
use oafse.Postgres.Pages.{Tables}
use oafse.Repo.UrlRepo.{
  repo_take_on, repo_push_urls, repo_retry_url, repo_mark_processed, repo_get_crawl_metadata,
}
use oafse.Repo.PageRepo.{save_page, save_link}
use oafse.Fetcher.{Tools, fetch}
use oafse.Extractor.{HtmlTools, extract}
use oafse.UseCase.Parse.{execute}

-- Durations in nanoseconds.
abbrev pub second : ℕ
second = 1_000_000_000

abbrev pub crawler_config : CrawlConfig
crawler_config = record {
  workers_count = 20;
  try_lim = pos 5;
  try_base_interval = 5 * second;
  health_check_worry_threshold = 15 * second;
}

abbrev pub indexer_config : CrawlConfig
indexer_config = record {
  workers_count = 1;
  try_lim = pos 5;
  try_base_interval = 1 * second;
  health_check_worry_threshold = 0;
}

-- What the outside does at the n-th call: the clocks (in milliseconds for the scripts), the random
-- number, the web, the HTML parsers, the fate of the requests to Redis and Postgres, and, in `others`,
-- what the other clients of Redis have done to the store `S` since the call before.
pub record Outside (S F : Type 0) : Type 0 where
  pub others : ℕ → S → S
  pub enqueue_at : ℕ → ℕ
  pub take_at : ℕ → ℕ
  pub enqueue_link : ℕ → Link
  pub take_link : ℕ → Link
  pub metadata_link : ℕ → Link
  pub push_pipe : ℕ → Pipe
  pub settle_link : ℕ → Link
  pub now : ℕ → ℤ
  pub now_later : ℕ → ℤ
  pub retry_now : ℕ → ℤ
  pub jitter : ℕ → ℕ
  pub convert : ℕ → ℕ
  pub tools : ℕ → Tools
  pub html : ℕ → HtmlTools
  pub page_link : ℕ → DbLink
  pub link_link : ℕ → DbLink
  pub l2_normalize : List F → List F

-- `calls` counts the calls made so far, and `attempts` holds the labels of `FetchAttempts` as they were
-- counted, the latest first.
pub record World (S F : Type 0) : Type 0 where
  pub store : S
  pub tables : Tables F
  pub calls : ℕ
  pub attempts : List AttemptStatus

module _ {S F : Type 0} where
  abbrev pub in_store : {A : Type 0} → World S F → A × S → A × World S F
  in_store w x = (x.0, record w { store = x.1; calls = suc w.calls })

  abbrev pub in_tables : {A : Type 0} → World S F → A × Tables F → A × World S F
  in_tables w x = (x.0, record w { tables = x.1; calls = suc w.calls })

  abbrev pub outside : {A : Type 0} → World S F → A → A × World S F
  outside w a = (a, record w { calls = suc w.calls })

-- `NewParse` with what fx provides for its parameters. Each call that goes to Redis finds the store
-- as the other clients have left it.
module _ (net : NetUrl) (r : Redis) {F : Type 0} (o : Outside r.Store F) where
  open r use {Store}

  abbrev pub store_now : World Store F → Store
  store_now w = o.others w.calls w.store

  abbrev pub crawl_ports : CrawlPorts (World Store F) F
  crawl_ports = record {
    take_on = λ id w. in_store w (
        repo_take_on net r (o.enqueue_link w.calls) (o.take_link w.calls) id (o.enqueue_at w.calls)
          (o.take_at w.calls) (store_now w));
    push_urls =
        λ urls w. in_store w (repo_push_urls net r (o.push_pipe w.calls) urls (store_now w));
    retry_url =
        λ url at w. in_store w (repo_retry_url net r (o.settle_link w.calls) url at (store_now w));
    mark_processed = λ url status w.
        in_store w (repo_mark_processed net r (o.settle_link w.calls) url status (store_now w));
    get_crawl_metadata =
        λ w. in_store w (repo_get_crawl_metadata net r (o.metadata_link w.calls) (store_now w));
    save_page =
        λ page w. in_tables w (save_page o.l2_normalize (o.page_link w.calls) page w.tables);
    save_link = λ parent id w. in_tables w (save_link (o.link_link w.calls) parent id w.tables);
    fetch = λ url w. outside w (fetch net (o.tools w.calls) url);
    extract = λ fd w. outside w (extract net (o.html w.calls) fd);
    count_attempt = λ label w. record w { attempts = label ∷ w.attempts };
    calc_retry_time = λ try w. calc_retry_time o.convert (o.retry_now w.calls) try crawler_config;
    url_string = λ u. net.string u.url;
    now = λ w. o.now w.calls;
    now_later = λ w. o.now_later w.calls;
    jitter = λ w. o.jitter w.calls;
  }

  -- The rounds of worker.go's `run`, with what happens while it waits among the others' doings.
  unfoldable pub rounds : ℕ → String → World Store F → World Store F
  rounds zero id w = w
  rounds (suc n) id w = rounds n id (execute crawl_ports id w).1
