-- ===== src/Crawler/Filled.antt =====
-- The ports of the crawler meet the contract of `Execute`.
use oafse.Common.{suc, ◌⊎◌, inl, inr, ◌≢◌, arith, ℕ, ◌≡◌, String, List}
use oafse.Common.Int.{ℤ}
use oafse.Common.Go.{GoResult, ok, err, panic}
use oafse.Common.Runs.{Ends}
use oafse.Domain.Status.{CrawlStatus}
use oafse.Domain.Url.{Url, NetUrl}
use oafse.Domain.Page.{Page}
use oafse.Port.Fetch.{FetchStatus, FetchData}
use oafse.Redis.Api.{Redis}
use oafse.Redis.Reach.{here}
use oafse.Postgres.Errors.{DbLink, db_up, not_run, answer_lost, db_call}
use oafse.Postgres.Pages.{Tables}
use oafse.Postgres.PageDs.{insert_page, insert_link}
use oafse.Repo.UrlRepo.{repo_take_on, repo_mark_processed, repo_retry_url, repo_push_urls}
use oafse.Repo.PageRepo.{save_page, save_link}
use oafse.Fetcher.{fetch}
use oafse.Extractor.{extract}
use oafse.UseCase.Parse.{execute}
use oafse.UseCase.Parse.Contract.{IsTerminal, Contract}
use oafse.UseCase.Parse.Kept.{execute-Ends}
use oafse.Crawler.{Outside, World, in_tables, outside, store_now, crawl_ports}
use oafse.Crawler.Sound.{Reach-trans}
use oafse.Crawler.Laws.{
  StatementFailed, elsewhere, Relies, Valid, Quiet, Holds, Broken, Finished, Legal,
  meanwhile-IsSound, still, in_store_take, in_store_metadata, in_store_settle, in_store_push,
}
use oafse.Crawler.Only.{
  repo_take_on-TakesOnly, repo_mark_processed-ReleasesBy, repo_retry_url-ReleasesBy,
  repo_push_urls-GainsNone,
}
use oafse.Crawler.Take.{repo_take_on-Ends}
use oafse.Crawler.Settle.{repo_mark_processed-Ends, repo_retry_url-Ends}
use oafse.Crawler.Push.{AllNormal, repo_push_urls-Ends}
use oafse.Crawler.Visit.{
  UrlLaws, IsExtractable, FetchedWell, ExtractedWell, fetch-FetchedWell, extract-ExtractedWell,
}

module _ (net : NetUrl) (laws : UrlLaws net) (r : Redis) {F : Type 0} (o : Outside r.Store F)
    (id other : String) (rely : Relies net laws r o id other) (start : World r.Store F) where
  open r use {Store}
  open rely use {distinct, settles, answers_proper}

  -- The properties of a world, for this worker and bystander.
  abbrev W : Type 0
  W = World Store F

  abbrev Held : Url → W → W → Type 0
  Held u w t =
      Legal net laws r o id other rely start w t × Holds net laws r o id other rely start u t

  pub mark_law :
      (u : Url) (status : CrawlStatus) (w : W)
      → Holds net laws r o id other rely start u w
      → IsTerminal status
      → Ends
          (Held u w)
          (λ _ t.
            Legal net laws r o id other rely start w t
            × Finished net laws r o id other rely start t)
          ((crawl_ports net r o).mark_processed (net.string u.url) status w)
  mark_law u status w h fin =
      let url = net.string u.url in
      let link = o.settle_link w.calls in
      let s = store_now net r o w in
      let held = still net laws r o id other rely start u w h in
      in_store_settle net laws r o id other rely start u w
        (repo_mark_processed net r link url status s) link h
        (repo_mark_processed-Ends net r other id url link s status (settles w.calls) distinct
          (meanwhile-IsSound net laws r o id other rely start w h.0) held fin)
        (repo_mark_processed-ReleasesBy net r id url s held link status fin)

  pub retry_law :
      (u : Url) (at : ℤ) (w : W)
      → Holds net laws r o id other rely start u w
      → Ends
          (Held u w)
          (λ _ t.
            Legal net laws r o id other rely start w t
            × Finished net laws r o id other rely start t)
          ((crawl_ports net r o).retry_url (net.string u.url) at w)
  retry_law u at w h =
      let url = net.string u.url in
      let link = o.settle_link w.calls in
      let s = store_now net r o w in
      let held = still net laws r o id other rely start u w h in
      in_store_settle net laws r o id other rely start u w (repo_retry_url net r link url at s) link
        h
        (repo_retry_url-Ends net r other id url link s at (settles w.calls) distinct
          (meanwhile-IsSound net laws r o id other rely start w h.0) held)
        (repo_retry_url-ReleasesBy net r id url s held link at)

  pub push_law :
      (u : Url) (links : List Url) (w : W)
      → Holds net laws r o id other rely start u w
      → AllNormal net links
      → Ends (Held u w) (λ _. Held u w) ((crawl_ports net r o).push_urls links w)
  push_law u links w h n =
      let pipe = o.push_pipe w.calls in
      let s = store_now net r o w in
      in_store_push net laws r o id other rely start u w (repo_push_urls net r pipe links s) h
        (repo_push_urls-Ends net r other id (net.string u.url) pipe links s
          (meanwhile-IsSound net laws r o id other rely start w h.0)
          (still net laws r o id other rely start u w h) n)
        (repo_push_urls-GainsNone net r id pipe links s)

  failed_now :
      (u : Url) (w : W)
      → Holds net laws r o id other rely start u w
      → (o.page_link w.calls ≢ db_up) ⊎ (o.link_link w.calls ≢ db_up)
      → StatementFailed o start.calls (suc w.calls)
  failed_now u w h fault = (w.calls, h.0.1, omega arith, fault)

  -- A statement of Postgres leaves the store alone.
  in_tables_rule :
      {A : Type 0} (u : Url) (w : W) (link : DbLink) (m : Tables F → A × Tables F)
      → Holds net laws r o id other rely start u w
      → (link ≢ db_up → (o.page_link w.calls ≢ db_up) ⊎ (o.link_link w.calls ≢ db_up))
      → Ends
          (λ t.
            Legal net laws r o id other rely start w t
            × (Holds net laws r o id other rely start u t
                × Broken net laws r o id other rely start t))
          (λ _. Held u w)
          (in_tables w (db_call link m w.tables))
  in_tables_rule u w db_up m h fault =
      ((here, λ url held. held), elsewhere net laws r o id other rely start u w (m w.tables).1 h)
  in_tables_rule u w (not_run e) m h fault = (
    (here, λ url held. held),
    (elsewhere net laws r o id other rely start u w w.tables h, failed_now u w h (fault (λ q. cc))),
  )
  in_tables_rule u w (answer_lost e) m h fault = (
    (here, λ url held. held),
    (
      elsewhere net laws r o id other rely start u w (m w.tables).1 h,
      failed_now u w h (fault (λ q. cc)),
    ),
  )

  pub save_page_law :
      (u : Url) (page : Page F) (w : W)
      → Holds net laws r o id other rely start u w
      → Ends
          (λ t.
            Legal net laws r o id other rely start w t
            × (Holds net laws r o id other rely start u t
                × Broken net laws r o id other rely start t))
          (λ _. Held u w)
          ((crawl_ports net r o).save_page page w)
  unfolding save_page insert_page
  save_page_law u page w h = in_tables_rule u w (o.page_link w.calls) _ h (λ n. inl n)

  pub save_link_law :
      (u : Url) (parent : String) (page_id : ℕ) (w : W)
      → Holds net laws r o id other rely start u w
      → Ends
          (λ t.
            Legal net laws r o id other rely start w t
            × (Holds net laws r o id other rely start u t
                × Broken net laws r o id other rely start t))
          (λ _. Held u w)
          ((crawl_ports net r o).save_link parent page_id w)
  unfolding save_link insert_link
  save_link_law u parent page_id w h = in_tables_rule u w (o.link_link w.calls) _ h (λ n. inr n)

  pub fetched_rule :
      (u : Url) (w : W) (x : GoResult FetchData)
      → Holds net laws r o id other rely start u w
      → FetchedWell net laws x
      → Ends
          (Held u w)
          (λ fd t.
            Legal net laws r o id other rely start w t
            × (Holds net laws r o id other rely start u t
                × (fd.status ≡ FetchStatus.fetch_ok → IsExtractable net laws fd)))
          (outside w x)
  fetched_rule u w (ok fd) h good =
      ((here, λ url held. held), (elsewhere net laws r o id other rely start u w w.tables h, good))
  fetched_rule u w (err e) h good =
      ((here, λ url held. held), elsewhere net laws r o id other rely start u w w.tables h)
  fetched_rule u w panic h good = good

  pub extracted_rule :
      (u : Url) (w : W) (x : GoResult (Page F × List Url))
      → Holds net laws r o id other rely start u w
      → ExtractedWell net laws x
      → Ends
          (Held u w)
          (λ extracted t.
            Legal net laws r o id other rely start w t
            × (Holds net laws r o id other rely start u t × AllNormal net extracted.1))
          (outside w x)
  extracted_rule u w (ok extracted) h good =
      ((here, λ url held. held), (elsewhere net laws r o id other rely start u w w.tables h, good))
  extracted_rule u w (err e) h good =
      ((here, λ url held. held), elsewhere net laws r o id other rely start u w w.tables h)
  extracted_rule u w panic h good = good

  abbrev pub contract : Contract (crawl_ports net r o) id
  contract = record {
    Valid = Valid net laws r o id other rely start;
    Holds = Holds net laws r o id other rely start;
    Quiet = Quiet net laws r o id other rely start;
    Finished = Finished net laws r o id other rely start;
    Broken = Broken net laws r o id other rely start;
    Legal = Legal net laws r o id other rely start;
    Extractable = IsExtractable net laws;
    Pushable = AllNormal net;
    holds_valid = λ u w h. h.0;
    left_law = λ u w h fault. (h.0, inr fault);
    legal_trans = λ s t u p q. (Reach-trans net r p.0 q.0, λ url held. q.1 url (p.1 url held));
    take_on_law = λ w q.
        in_store_take net laws r o id other rely start w
          (repo_take_on net r (o.enqueue_link w.calls) (o.take_link w.calls) id
            (o.enqueue_at w.calls) (o.take_at w.calls) (store_now net r o w))
          q
          (repo_take_on-Ends net r other id (o.enqueue_link w.calls) (o.take_link w.calls)
            (o.enqueue_at w.calls) (o.take_at w.calls) (store_now net r o w)
            (meanwhile-IsSound net laws r o id other rely start w q.0))
          (repo_take_on-TakesOnly net r id (o.enqueue_link w.calls) (o.take_link w.calls)
            (o.enqueue_at w.calls) (o.take_at w.calls) (store_now net r o w)
            (meanwhile-IsSound net laws r o id other rely start w q.0));
    metadata_law =
        λ w q. in_store_metadata net laws r o id other rely start w (o.metadata_link w.calls) q;
    count_held_law = λ u label w h. ((here, λ url held. held), h);
    count_finished_law = λ label w h. ((here, λ url held. held), h);
    mark_law = mark_law;
    retry_law = retry_law;
    push_law = push_law;
    save_page_law = save_page_law;
    save_link_law = save_link_law;
    fetch_law = λ u w h.
        fetched_rule u w (fetch net (o.tools w.calls) u) h
          (fetch-FetchedWell net laws (o.tools w.calls) u (answers_proper w.calls));
    extract_law = λ u fd w h good.
        extracted_rule u w (extract net (o.html w.calls) fd) h
          (extract-ExtractedWell net laws F (o.html w.calls) fd good);
  }

  pub execute-Finished :
      (w : W)
      → Quiet net laws r o id other rely start w
      → Ends
          (λ t.
            Legal net laws r o id other rely start w t × Valid net laws r o id other rely start t)
          (λ _ t.
            Legal net laws r o id other rely start w t
            × Finished net laws r o id other rely start t)
          (execute (crawl_ports net r o) id w)
  execute-Finished w q = execute-Ends (crawl_ports net r o) id contract w q
