-- ===== src/Crawler/Guarantee.antt =====
-- What a worker does is made of the calls that the others rely on.
use oafse.Common.{ℕ, zero, suc, ◌≡◌, ◌≢◌, ◌⊎◌, String, sym, subst, refl, arith}
use oafse.Common.Go.{GoResult, ok, err, panic}
use oafse.Common.Runs.{Ends, Ends-map}
use oafse.Domain.Url.{NetUrl}
use oafse.UseCase.Parse.{execute}
use oafse.UseCase.Parse.Traced.{Legal, Traces, execute_traced}
use oafse.Redis.Api.{Redis}
use oafse.Redis.Net.{Link, up, request_lost, reply_lost}
use oafse.Redis.UrlDs.{get_crawl_metadata}
use oafse.Repo.UrlRepo.{repo_get_crawl_metadata}
use oafse.Crawler.{Outside, World, crawl_ports, rounds, store_now}
use oafse.Crawler.Sound.{IsSound, Moves, Moves-refl, Moves-trans}
use oafse.Crawler.Gains.{GainsNone}
use oafse.Crawler.Visit.{UrlLaws}
use oafse.Crawler.Laws.{Relies, StatementFailed, still}
use oafse.Crawler.Filled.{contract}
use oafse.Crawler.Turns.{
  Turn, Turns, nothing, turn, takes, pushes, marks, retries, Turns-append, Turns-map,
}
use oafse.Crawler.Among.{IsThird, RunsAmong, RunsAmong-Relies}

metadata-store :
    (net : NetUrl) (r : Redis) (link : Link) (s : r.Store)
    → (repo_get_crawl_metadata net r link s).1 ≡ s
unfolding repo_get_crawl_metadata get_crawl_metadata
metadata-store net r up s = refl
metadata-store net r request_lost s = refl
metadata-store net r reply_lost s = refl

module _ (net : NetUrl) (laws : UrlLaws net) (r : Redis) {F : Type 0} (o : Outside r.Store F)
    (id other : String) (among : RunsAmong net laws r o id other) where
  open r use {Store}
  open among use {distinct, turns, settles}

  abbrev W : Type 0
  W = World Store F

  -- The calls of all but the bystander.
  abbrev Trail : Store → Store → Type 0
  Trail s t = Turns net r (λ b. b ≢ other) s t

  meanwhile : (w : W) → IsSound net r w.store → Trail w.store (store_now net r o w)
  meanwhile w sound =
      Turns-map net r (IsThird id other) (λ b. b ≢ other) w.store (λ b third. third.1)
        (turns w.calls w.store sound)

  abbrev rely : Relies net laws r o id other
  rely = RunsAmong-Relies net laws r o id other among

  -- A call of the worker behind the others' calls.
  own-Turn :
      (w : W) {t : Store}
      → IsSound net r w.store
      → Turn net r id (store_now net r o w) t
      → Trail w.store t
  own-Turn w sound step = turn id (meanwhile w sound) distinct step

  traces :
      (start : W)
      → Traces (contract net laws r o id other rely start) (λ w t. Trail w.store t.store)
  traces start = record {
    trans = λ w t u p q. Turns-append net r (λ b. b ≢ other) w.store t.store p q;
    take_on = λ w q. own-Turn w q.0.0 (
        takes (o.enqueue_link w.calls) (o.take_link w.calls) (o.enqueue_at w.calls)
          (o.take_at w.calls));
    metadata = λ w q.
        subst (Trail w.store)
          (sym (metadata-store net r (o.metadata_link w.calls) (store_now net r o w)))
          (meanwhile w q.0.0);
    count = λ label w. nothing;
    mark = λ u status w h fin. own-Turn w h.0.0 (
        marks (o.settle_link w.calls) (net.string u.url) status (settles w.calls)
          (still net laws r o id other rely start u w h) fin);
    retry = λ u at w h. own-Turn w h.0.0 (
        retries (o.settle_link w.calls) (net.string u.url) at (settles w.calls)
          (still net laws r o id other rely start u w h));
    push = λ u links w h normal. own-Turn w h.0.0 (
        pushes (o.push_pipe w.calls) links (net.string u.url)
          (still net laws r o id other rely start u w h) normal);
    save_page = λ page w. nothing;
    save_link = λ parent page_id w. nothing;
    fetch = λ u w. nothing;
    extract = λ fd w. nothing;
  }

  abbrev Went : W → W → Type 0
  Went w t = Trail w.store t.store × Moves net r other w.store t.store

  abbrev LeavesNone : W → W → Type 0
  LeavesNone w t = GainsNone net r id w.store t.store ⊎ StatementFailed o w.calls t.calls

  execute-Went :
      (w : W)
      → IsSound net r w.store
      → Ends (Went w) (λ _ t. Went w t × LeavesNone w t) (execute (crawl_ports net r o) id w)
  execute-Went w sound =
      let c = contract net laws r o id other rely w in
      let T : W → W → Type 0 = λ v t. Trail v.store t.store in
      Ends-map (λ t. Legal c T (traces w) w t × c.Valid t) (Went w)
        (λ _ t. Legal c T (traces w) w t × c.Finished t) (λ _ t. Went w t × LeavesNone w t)
        (execute (crawl_ports net r o) id w)
        (execute_traced c T (traces w) w ((sound, omega arith), λ v h. h))
        (λ t (legal, valid). (legal.1, (legal.0.0, (legal.0.1, valid.0))))
        (λ _ t (legal, fin). ((legal.1, (legal.0.0, (legal.0.1, fin.0.0))), fin.1))

  went :
      {A : Type 0} (w : W) (x : GoResult A × W)
      → Ends (Went w) (λ _ t. Went w t × LeavesNone w t) x
      → Went w x.1
  went w (ok a, t) h = h.0
  went w (err e, t) h = h
  went w (panic, t) h = absurd h

  Went-trans : (w t u : W) → Went w t → Went t u → Went w u
  Went-trans w t u (p, m) (q, n) = (
    Turns-append net r (λ b. b ≢ other) w.store t.store p q,
    Moves-trans net r other w.store t.store u.store m n,
  )

  rounds-Went : (n : ℕ) (w : W) → IsSound net r w.store → Went w (rounds net r o n id w)
  unfolding rounds
  rounds-Went zero w sound = (nothing, Moves-refl net r other w.store sound)
  rounds-Went (suc n) w sound =
      let t = (execute (crawl_ports net r o) id w).1 in
      let first = went w (execute (crawl_ports net r o) id w) (execute-Went w sound) in
      Went-trans w t (rounds net r o n id t) first (rounds-Went n t first.1.1.1)

  -- Where URLs print back (UrlLaws) and the worker runs as in RunsAmong: after any number of its
  -- rounds from a sound store the next `Execute` does not panic, whatever the web, the clocks and
  -- Postgres answer and whichever other requests are lost. The store at the start and the one that it
  -- leaves are joined by calls of the URL repository by workers other than the bystander, each of
  -- which settles only URLs that its worker holds then, by pushes of start URLs, and by recoveries of
  -- URLs that such workers hold; and by legal steps, to a sound store in which the bystander holds
  -- what it held. If the `Execute` ends with a result, the worker holds no URL that it did not hold
  -- before it, or Postgres leaves one of its statements unanswered.
  pub rounds_guarantee :
      (n : ℕ) (w : W)
      → IsSound net r w.store
      → let before = rounds net r o n id w in
        Ends
          (λ t. Turns net r (λ b. b ≢ other) w.store t.store × Moves net r other w.store t.store)
          (λ _ t.
            (Turns net r (λ b. b ≢ other) w.store t.store × Moves net r other w.store t.store)
            × (GainsNone net r id before.store t.store ⊎ StatementFailed o before.calls t.calls))
          (execute (crawl_ports net r o) id before)
  rounds_guarantee n w sound =
      let first = rounds-Went n w sound in
      let s = rounds net r o n id w in
      Ends-map (Went s) (Went w) (λ _ t. Went s t × LeavesNone s t)
        (λ _ t. Went w t × LeavesNone s t) (execute (crawl_ports net r o) id s)
        (execute-Went s first.1.1.1) (λ t m. Went-trans w s t first m)
        (λ _ t (m, none_left). (Went-trans w s t first m, none_left))
