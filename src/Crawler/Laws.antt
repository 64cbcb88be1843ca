-- ===== src/Crawler/Laws.antt =====
-- The ports of the crawler meet the laws that `Execute` asks of them.
use oafse.Common.{◌≤◌, ◌<◌, ℕ, suc, ◌≡◌, ◌≢◌, ◌↔◌, ◌⊎◌, inl, inr, String, List, arith, eq_iff}
use oafse.Common.Go.{
  GoResult, ok, err, panic, queue_empty, transport, script, info_not_found, bad_url, transient,
  fatal, not_text, content, embedding,
}
use oafse.Common.Runs.{Ends}
use oafse.Domain.Url.{Url, NetUrl}
use oafse.Redis.Api.{Redis}
use oafse.Redis.Net.{Link, up, request_lost, reply_lost}
use oafse.Redis.Reach.{Reach}
use oafse.Redis.UrlDs.{get_crawl_metadata}
use oafse.Postgres.Pages.{Tables}
use oafse.Postgres.Errors.{db_up}
use oafse.Repo.UrlRepo.{repo_get_crawl_metadata}
use oafse.UseCase.Parse.Contract.{EndsTake}
use oafse.Crawler.{Outside, World, in_store, store_now}
use oafse.Crawler.Sound
use oafse.Crawler.Sound.{IsSound, Keeps, Moves, Moves-refl, Moves-trans, Reach-trans}
use oafse.Crawler.Gains.{GainsNone}
use oafse.Crawler.Only.{TakesOnly, ReleasesBy}
use oafse.Crawler.Take.{TakenBy}
use oafse.Crawler.Settle.{StillHeld}
use oafse.Crawler.Push.{MovesHeld}
use oafse.Crawler.Visit.{UrlLaws, AnswersProper}

-- What a worker relies on: the other clients of Redis take legal steps, keep every record readable
-- and leave alone which URLs the worker holds, and what the bystander `other` holds; the replies to
-- the requests that settle a URL are not lost; net/http answers from URLs that it made.
pub record Relies (net : NetUrl) (laws : UrlLaws net) (r : Redis) {F : Type 0}
    (o : Outside r.Store F) (id other : String) : Type 0 where
  pub distinct : id ≢ other
  pub others_move : (n : ℕ) (s : r.Store) → IsSound net r s → Moves net r other s (o.others n s)
  pub others_keep :
      (n : ℕ) (s : r.Store) (url : String)
      → IsSound net r s
      → Sound.Holds net r id url s ↔ Sound.Holds net r id url (o.others n s)
  pub settles : (n : ℕ) → o.settle_link n ≢ reply_lost
  pub answers_proper : (n : ℕ) → AnswersProper net laws (o.tools n)

-- Postgres leaves a statement unanswered at one of the calls `from` up to, but without, `to`.
abbrev pub StatementFailed : {S F : Type 0} → Outside S F → ℕ → ℕ → Type 0
StatementFailed o from to =
    (n : ℕ) × (from ≤ n) × (n < to) × ((o.page_link n ≢ db_up) ⊎ (o.link_link n ≢ db_up))

module _ (net : NetUrl) (laws : UrlLaws net) (r : Redis) {F : Type 0} (o : Outside r.Store F)
    (id other : String) (rely : Relies net laws r o id other) (start : World r.Store F) where
  open r use {Store, contents}
  open rely use {distinct, others_move, others_keep, settles, answers_proper}

  abbrev pub W : Type 0
  W = World Store F

  abbrev pub Valid : W → Type 0
  Valid w = IsSound net r w.store × (start.calls ≤ w.calls)

  -- What the worker holds it held at the start, but for `u`.
  abbrev pub AllButOne : String → Store → Type 0
  AllButOne u s =
      (v : String) → Sound.Holds net r id v s → Sound.Holds net r id v start.store ⊎ (v ≡ u)

  abbrev pub Quiet : W → Type 0
  Quiet w = Valid w × GainsNone net r id start.store w.store

  abbrev pub Holds : Url → W → Type 0
  Holds u w =
      Valid w
      × (Sound.Holds net r id (net.string u.url) w.store × AllButOne (net.string u.url) w.store)

  abbrev pub Broken : W → Type 0
  Broken w = StatementFailed o start.calls w.calls

  abbrev pub Finished : W → Type 0
  Finished w =
      Valid w × (GainsNone net r id start.store w.store ⊎ StatementFailed o start.calls w.calls)

  abbrev pub Legal : W → W → Type 0
  Legal v w = Reach r v.store w.store × Keeps net r other v.store w.store

  -- The others' steps, then the worker's.
  meanwhile : (w : W) → Valid w → Moves net r other w.store (store_now net r o w)
  meanwhile w v = others_move w.calls w.store v.0

  pub meanwhile-IsSound : (w : W) → Valid w → IsSound net r (store_now net r o w)
  meanwhile-IsSound w v = (meanwhile w v).1.1

  -- The world behind a call that leaves the store `s`.
  abbrev pub behind : W → Store → W
  behind w s = record w { store = s; calls = suc w.calls }

  onward :
      (w : W) (s : Store)
      → Valid w
      → Moves net r other (store_now net r o w) s
      → Legal w (behind w s) × Valid (behind w s)
  onward w s v m =
      let all = Moves-trans net r other w.store (store_now net r o w) s (meanwhile w v) m in
      ((all.0, all.1.0), (all.1.1, omega (arith, v.1)))

  pub still :
      (u : Url) (w : W) → Holds u w → Sound.Holds net r id (net.string u.url) (store_now net r o w)
  still u w h = (others_keep w.calls w.store (net.string u.url) h.0.0).0 h.1.0

  before_now :
      (w : W) (v : String)
      → Valid w
      → Sound.Holds net r id v (store_now net r o w)
      → Sound.Holds net r id v w.store
  before_now w v valid h = (others_keep w.calls w.store v valid.0).1 h

  unchanged :
      (w : W)
      → Quiet w
      → Legal w (behind w (store_now net r o w)) × Valid (behind w (store_now net r o w))
  unchanged w q =
      onward w (store_now net r o w) q.0
        (Moves-refl net r other (store_now net r o w) (meanwhile-IsSound w q.0))

  -- A call that leaves the store alone.
  pub elsewhere :
      (u : Url) (w : W) (tables : Tables F)
      → Holds u w
      → Holds u (record w { tables = tables; calls = suc w.calls })
  elsewhere u w tables h = ((h.0.0, omega (arith, h.0.1)), h.1)

  pub in_store_take :
      (w : W) (x : GoResult Url × Store)
      → Quiet w
      → Ends
          (Moves net r other (store_now net r o w))
          (TakenBy net r other id (store_now net r o w))
          x
      → TakesOnly net r id (store_now net r o w) x
      → EndsTake
          (λ t. Legal w t × Valid t)
          (λ t. Legal w t × Quiet t)
          (λ u t. Legal w t × Holds u t)
          (in_store w x)
  in_store_take w (ok u, s) q m only =
      let (legal, valid) = onward w s q.0 m.0 in
      (
        legal,
        (
          valid,
          (
            m.1,
            λ v h. elim (only v h) [
              | inl earlier ↦ inl (q.1 v (before_now w v q.0 earlier))
              | inr e ↦ inr e
            ],
          ),
        ),
      )
  in_store_take w (err queue_empty, s) q m only =
      let (legal, valid) = onward w s q.0 m in
      (legal, (valid, λ v h. q.1 v (before_now w v q.0 (only v h))))
  in_store_take w (err transport, s) q m only = onward w s q.0 m
  in_store_take w (err script, s) q m only = onward w s q.0 m
  in_store_take w (err info_not_found, s) q m only = onward w s q.0 m
  in_store_take w (err bad_url, s) q m only = onward w s q.0 m
  in_store_take w (err transient, s) q m only = onward w s q.0 m
  in_store_take w (err fatal, s) q m only = onward w s q.0 m
  in_store_take w (err not_text, s) q m only = onward w s q.0 m
  in_store_take w (err content, s) q m only = onward w s q.0 m
  in_store_take w (err embedding, s) q m only = onward w s q.0 m
  in_store_take w (panic, s) q m only = m

  pub in_store_metadata :
      (w : W) (link : Link)
      → Quiet w
      → Ends
          (λ t. Legal w t × Valid t)
          (λ md t. Legal w t × Finished t)
          (in_store w (repo_get_crawl_metadata net r link (store_now net r o w)))
  unfolding repo_get_crawl_metadata get_crawl_metadata
  in_store_metadata w up q =
      let (legal, valid) = unchanged w q in
      (legal, (valid, inl (λ v h. q.1 v (before_now w v q.0 h))))
  in_store_metadata w request_lost q = unchanged w q
  in_store_metadata w reply_lost q = unchanged w q

  pub in_store_settle :
      (u : Url) (w : W) (x : GoResult (Unit {0}) × Store) (link : Link) (h : Holds u w)
      → Ends
          (StillHeld net r other id (net.string u.url) link (store_now net r o w))
          (λ _. Moves net r other (store_now net r o w))
          x
      → ReleasesBy net r id (net.string u.url) (store_now net r o w) (still u w h) x
      → Ends (λ t. Legal w t × Holds u t) (λ _ t. Legal w t × Finished t) (in_store w x)
  in_store_settle u w (ok a, s) link h m released =
      let (legal, valid) = onward w s h.0 m in
      (
        legal,
        (
          valid,
          inl (λ v k.
              let (earlier, differs) = released v k in
              elim (h.1.1 v (before_now w v h.0 earlier)) [
                | inl first ↦ first
                | inr e ↦ absurd (ground (arith, differs, e, eq_iff (net.string u.url) v))
              ]),
        ),
      )
  in_store_settle u w (err e, s) link h m gains =
      let (legal, valid) = onward w s h.0 m.0 in
      (legal, (valid, (m.1, λ v k. h.1.1 v (before_now w v h.0 (gains v k)))))
  in_store_settle u w (panic, s) link h m released = m

  pub in_store_push :
      (u : Url) (w : W) (x : GoResult (List Url) × Store) (h : Holds u w)
      → Ends
          (MovesHeld net r other id (net.string u.url) (store_now net r o w))
          (λ _. MovesHeld net r other id (net.string u.url) (store_now net r o w))
          x
      → GainsNone net r id (store_now net r o w) x.1
      → Ends (λ t. Legal w t × Holds u t) (λ _ t. Legal w t × Holds u t) (in_store w x)
  in_store_push u w (ok a, s) h m gains =
      let (legal, valid) = onward w s h.0 m.0 in
      (legal, (valid, (m.1, λ v k. h.1.1 v (before_now w v h.0 (gains v k)))))
  in_store_push u w (err e, s) h m gains =
      let (legal, valid) = onward w s h.0 m.0 in
      (legal, (valid, (m.1, λ v k. h.1.1 v (before_now w v h.0 (gains v k)))))
  in_store_push u w (panic, s) h m gains = m
