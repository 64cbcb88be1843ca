-- ===== src/Crawler/Run.antt =====
-- The rounds of a worker.
use oafse.Common.{◌⊎◌, arith, ℕ, zero, suc, String}
use oafse.Common.Go.{GoResult, ok, err, panic}
use oafse.Common.Runs.{Ends, Ends-map}
use oafse.Domain.Url.{NetUrl}
use oafse.Redis.Api.{Redis}
use oafse.UseCase.Parse.{execute}
use oafse.Crawler.{Outside, World, crawl_ports, rounds}
use oafse.Crawler.Sound.{IsSound, Moves, Moves-refl, Moves-trans}
use oafse.Crawler.Laws.{Relies, StatementFailed, Valid, Finished, Legal}
use oafse.Crawler.Filled.{execute-Finished}
use oafse.Crawler.Gains.{GainsNone}
use oafse.Crawler.Visit.{UrlLaws}

module _ (net : NetUrl) (laws : UrlLaws net) (r : Redis) {F : Type 0} (o : Outside r.Store F)
    (id other : String) (rely : Relies net laws r o id other) where
  open r use {Store}

  abbrev W : Type 0
  W = World Store F

  abbrev Moved : W → W → Type 0
  Moved w t = Moves net r other w.store t.store

  -- The worker holds nothing that it did not hold, or Postgres has failed since.
  abbrev LeavesNone : W → W → Type 0
  LeavesNone w t = GainsNone net r id w.store t.store ⊎ StatementFailed o w.calls t.calls

  execute-Moved :
      (w : W)
      → IsSound net r w.store
      → Ends (Moved w) (λ _ t. Moved w t × LeavesNone w t) (execute (crawl_ports net r o) id w)
  execute-Moved w v =
      Ends-map (λ t. Legal net laws r o id other rely w w t × Valid net laws r o id other rely w t)
        (Moved w)
        (λ _ t. Legal net laws r o id other rely w w t × Finished net laws r o id other rely w t)
        (λ _ t. Moved w t × LeavesNone w t) (execute (crawl_ports net r o) id w)
        (execute-Finished net laws r o id other rely w w ((v, omega arith), λ url held. held))
        (λ t (legal, valid). (legal.0, (legal.1, valid.0)))
        (λ _ t (legal, fin). ((legal.0, (legal.1, fin.0.0)), fin.1))

  moved :
      {A : Type 0} (w : W) (x : GoResult A × W)
      → Ends (Moved w) (λ _ t. Moved w t × LeavesNone w t) x
      → Moved w x.1
  moved w (ok a, t) h = h.0
  moved w (err e, t) h = h
  moved w (panic, t) h = absurd h

  rounds-Moved : (n : ℕ) (w : W) → IsSound net r w.store → Moved w (rounds net r o n id w)
  unfolding rounds
  rounds-Moved zero w v = Moves-refl net r other w.store v
  rounds-Moved (suc n) w v =
      let t = (execute (crawl_ports net r o) id w).1 in
      let first = moved w (execute (crawl_ports net r o) id w) (execute-Moved w v) in
      Moves-trans net r other w.store t.store (rounds net r o n id t).store first
        (rounds-Moved n t first.1.1)

  -- Where URLs print back (UrlLaws), and the other clients of Redis and the replies are as in
  -- Relies: after any number of rounds of a worker from a sound store, in which each URL has its
  -- place and each record a parent and a text that prints back, the next `Execute` does not panic,
  -- whatever the web, the clocks and Postgres answer and whichever other requests are lost. It
  -- ends with a result or with an error, and either way legal steps lead from the store at the
  -- start to the one that it leaves, which is sound and in which another worker still holds each
  -- URL that it held at the start. If it ends with a result, the worker holds no URL that it did
  -- not hold before this `Execute`, or Postgres leaves a statement unanswered at one of its calls.
  pub rounds-execute :
      (n : ℕ) (w : W)
      → IsSound net r w.store
      → let before = rounds net r o n id w in
        Ends
          (λ t. Moves net r other w.store t.store)
          (λ _ t.
            Moves net r other w.store t.store
            × (GainsNone net r id before.store t.store ⊎ StatementFailed o before.calls t.calls))
          (execute (crawl_ports net r o) id before)
  rounds-execute n w v =
      let first = rounds-Moved n w v in
      let s = rounds net r o n id w in
      Ends-map (Moved s) (Moved w) (λ _ t. Moved s t × LeavesNone s t)
        (λ _ t. Moved w t × LeavesNone s t) (execute (crawl_ports net r o) id s)
        (execute-Moved s first.1.1) (λ t m. Moves-trans net r other w.store s.store t.store first m)
        (λ _ t (m, none_left). (Moves-trans net r other w.store s.store t.store first m, none_left))
