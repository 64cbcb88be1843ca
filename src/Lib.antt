-- ===== src/Lib.antt =====
-- A verification library of OAFSE, a semantic search engine over crawled pages (Go).
--
-- The crawler takes URLs from a queue in Redis, fetches and reads each page, saves it in Postgres
-- and pushes the links it finds. The indexer embeds the pages that have no vector yet, and the
-- search server embeds a query and looks for near vectors. Workers share Redis and Postgres only:
-- the Lua scripts of the queue run atomically, and each SQL statement is one step.
--
-- Files, and the code they model:
--   Common        lists over the native numbers, int64, and what a Go function returns (GoResult:
--                 a value, an error, or a panic)
--   Domain        internal/domain/model and internal/domain/service: CrawlStatus and its text
--                 (Status), URL and Normalize (Url), Page (Page), CalcRetryTime (Retry)
--   Port          internal/application/port: FetchStatus and FetchData (Fetch); CrawlPorts, the
--                 calls of the parse use case (Crawl)
--   UseCase       internal/application/usecase: parse.go (Parse), index.go (Index), query.go (Query)
--   Storage       internal/infrastructure/storage/model (Model) and mapper (Mapper)
--   Postgres      internal/infrastructure/storage/postgres: errors.go (Errors), the tables and
--                 statements (Pages), page_ds.go (PageDs, and FindSimilar in Similar), notify_ds.go
--                 (Notify), pool_stats.go (PoolStats)
--   Redis         internal/infrastructure/storage/redis: the Lua scripts (Scripts), queue.go (Queue),
--                 processing.go (Processing), url_ds.go and retry.go (UrlDs)
--   Repo          internal/infrastructure/storage/repo: url_repo.go (UrlRepo), page_repo.go (PageRepo)
--   Embedder      internal/infrastructure/embedder/embedder.go
--   Fetcher       internal/infrastructure/fetcher/fetcher.go
--   Extractor     internal/infrastructure/extractor/extractor.go
--   Worker        internal/delivery/worker/worker.go: the loop (Worker), the pool (Pool)
--   Crawler       internal/di/di.go and NewParse of parse.go: the parse use case over the models of
--                 all its parts, in one World with the store of Redis and the tables of Postgres
--   Http          internal/delivery/http
--   Control       internal/di/di.go: the crawl handler over the URL repository
--   Metrics       internal/infrastructure/metrics/metrics.go: the labels of the attempts
--   Search        internal/di/di.go and NewQuery of query.go: the query use case over the models of
--                 its parts, with Embed of embedder.go
--   Program       cmd/helpers/common.go and the environment of cmd/crawler/main.go
--   Samples       data of the examples
--
-- A method is a function by the Go name in snake case. One that changes Redis or Postgres takes
-- the store and returns it beside its result; a Link or DbLink argument tells whether its request
-- was lost, ran, or ran with its reply lost. A script is a function of the store, with the branch
-- that follows its HGET as a function of the record found.
--
-- The Redis server is a record of its commands (Redis.Api) with what each does to the keys that
-- the program reads; Redis.Db defines those effects, and `reference` is the server that keeps
-- exactly them. So the theorems hold for any server with those effects. The records of the hash
-- crawler:url_status are the decoded tables, their JSON text is left out; keys are a data type;
-- scripts count milliseconds and Go code nanoseconds, and the conversions round as Go's do.
--
-- Redis.Reach has the scripts as steps of one store, in any order. Redis.Frontier is what they
-- promise together: an abstract map from URLs to statuses and what each call may do to it; order,
-- workers, tries and times are forgotten.
--
-- The steps of Redis.Reach run RetryURL, MarkProcessed and RecoverURL for URLs in processing only, and
-- MarkProcessed with a final status only; the theorems about paths of steps hold for those.
-- Redis.Processing.Late and Redis.Processing.Lost have what happens outside of them.
--
-- UseCase.Parse.Contract is what `Execute` asks of its ports, as a record of laws, UseCase.Parse.Kept
-- derives what `Execute` then keeps, and Crawler.Filled fills the record. In Crawler the answers of
-- the web, the clocks, the lost requests and the doings of other clients are arbitrary functions of
-- the call's number (Outside). Crawler.Laws.Relies is what is asked of them: the other clients take
-- legal steps, push only texts that print back, neither settle nor recover a URL that the worker
-- holds, and take none in its name; no reply to MarkProcessed or RetryURL is lost. They act between
-- the worker's calls, so that workers interleave call by call: the two requests of TakeOn follow each
-- other at once, and so do the pushes of PushURLs.
--
-- Parameters are the code that is not here: net/url and strings.ToLower (NetUrl), the HTTP client,
-- Chrome and the content sniffing (Tools), the HTML parser and the readability library (HtmlTools),
-- the embedding service, pgvector's l2_normalize, distance and the rows that its HNSW index yields
-- (Distance.visited; the index is approximate), strconv.Atoi and strconv.Itoa, and the conversion of
-- a float beyond int64. Of NetUrl the one law is that lower-casing twice is lower-casing once;
-- Crawler.Visit.UrlLaws adds that an absolute URL, made by net/url and normalized, prints a text
-- that parses and normalizes back to it.
--
-- The loop of EmbedBatch has fuel: two rounds for each text and one more, since a round either
-- takes a text or sends the batch, and no two rounds in a row send one. Every other loop is
-- structural.
--
-- Crawler.Turns has the calls of a worker as steps (Turn) and the paths that workers, the control API
-- and the recoveries of the health check make (Turns). Crawler.Among asks of the others that they take
-- such paths only, with their own ids, and derives Relies from that; Crawler.Guarantee has the worker's
-- own paths.
--
-- A health check is a sequence of requests like any other; where the theorems about a whole one
-- (Redis.Processing.Undisturbed, Redis.Processing.Sweep, Redis.UrlDs.Checking) ask that no other client
-- acts inside it, Redis.Processing.Late has what happens otherwise.
--
-- Contexts appear as calls that fail. Of metrics.go only the attempts of the parse use case, the
-- depths of the queues and the metrics of the connection pool are modelled. The column crawled_at is
-- taken to keep the time it is given, without the rounding to microseconds and the lost zone of
-- TIMESTAMP. A worker's rounds follow each other: the next one that the timeout of 15 seconds starts
-- beside one that still runs is left out. Logs and the texts of wrapped errors are left out, so is
-- the set-up of clients and programs. Not modelled are the goroutines as threads (their steps
-- interleave as given), the browser's options, the generated code, and the embedding service in
-- Python.
pub mod Common
pub mod Domain
pub mod Port
pub mod UseCase
pub mod Storage
pub mod Postgres
pub mod Redis
pub mod Repo
pub mod Embedder
pub mod Fetcher
pub mod Extractor
pub mod Worker
pub mod Crawler
pub mod Search
pub mod Control
pub mod Metrics
pub mod Program
pub mod Http
pub mod Samples
