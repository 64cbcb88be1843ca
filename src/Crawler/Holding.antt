-- ===== src/Crawler/Holding.antt =====
-- The scripts that a worker runs leave alone what another worker holds.
use oafse.Common.{
  ℕ, ◌≡◌, ◌≢◌, ◌∙◌, ◌<◌, String, Bool, true, false, Option, none, some, List, [], ◌∷◌, refl, sym,
  subst, ap, arith, eq_iff, str_eq, Bool-cases, inl, inr, count, lt→ltb,
}
use oafse.Common.Int.{ℤ}
use oafse.Domain.Url.{NetUrl}
use oafse.Storage.Model.{CrawlStatus}
use oafse.Redis.Info.{UrlInfo, url_status, queue, worker, retry_queue}
use oafse.Redis.Db.{Db, get_last?, lmove, zmembers_upto, zremrangebyscore}
use oafse.Redis.Api.{Redis, reference}
use oafse.Redis.Scripts.{
  hget, push_url, push_unseen, pop_url, pop_moved, retry_url, retry_known, mark_processed,
  mark_known, enqueue_urls, enqueue_due, enqueue_each, enqueue_one,
}
use oafse.Redis.Scripts.Simulation.{
  observe-push_url, observe-pop_url, observe-retry_url, observe-mark_processed,
  contents-enqueue_urls,
}
use oafse.Redis.Placement.{AllPlaced}
use oafse.Redis.Placement.Take.{queued_last}
use oafse.Redis.Frontier.{recorded_status}
use oafse.Redis.Frontier.Refines.{due-retry}
use oafse.Crawler.Sound.{IsHeld, IsSound, Holds, Keeps}

-- The record of each URL that the worker holds is the same.
abbrev HeldSame : String → Db → Db → Type 0
HeldSame other db db' =
    (u : String)
    → IsHeld other (db.hashes url_status u)
    → db'.hashes url_status u ≡ db.hashes url_status u

-- A URL that the other worker does not hold is none of those that it holds.
unheld_differs :
    (other url u : String) (db : Db)
    → ¬ IsHeld other (db.hashes url_status url)
    → IsHeld other (db.hashes url_status u)
    → str_eq url u ≡ false
unheld_differs other url u db n h = elim (Bool-cases (str_eq url u)) [
  | inl same ↦
      let is_url : url ≡ u = ground (arith, same, eq_iff url u) in
      absurd (n (subst (λ (v : String). IsHeld other (db.hashes url_status v)) (sym is_url) h))
  | inr differs ↦ differs
]

unheld_of_none : (other : String) (o : Option UrlInfo) → o ≡ none → ¬ IsHeld other o
unheld_of_none other none e h = h
unheld_of_none other (some i) e h = cc

unheld_of_status :
    (other : String) (o : Option UrlInfo) (status : CrawlStatus)
    → recorded_status o ≡ some status
    → status ≢ CrawlStatus.processing
    → ¬ IsHeld other o
unheld_of_status other none status e n h = h
unheld_of_status other (some i) status e n (st, w) = n (ground (arith, e, st))

pub unheld_of_owner :
    (id other : String) (o : Option UrlInfo) → id ≢ other → IsHeld id o → ¬ IsHeld other o
unheld_of_owner id other none n h k = h
unheld_of_owner id other (some i) n (st, w) (st', w') = n (sym w ∙ w')

enqueued-status :
    (before : String → String → Bool) (url u : String) (db : Db)
    → str_eq url u ≡ true
    → recorded_status ((enqueue_one (reference before) url db).hashes url_status u)
      ≡ some CrawlStatus.queued
enqueued-status before url u db same = go (hget (reference before) url db) refl
  where
    go :
        (o : Option UrlInfo)
        → hget (reference before) url db ≡ o
        → recorded_status ((enqueue_one (reference before) url db).hashes url_status u)
          ≡ some CrawlStatus.queued
    go none e = ground (arith, e, same)
    go (some i) e = ground (arith, e, same)

module _ (before : String → String → Bool) (other : String) where
  push-HeldSame :
      (url parent : String) (o : Option UrlInfo) (db : Db)
      → db.hashes url_status url ≡ o
      → HeldSame other db (push_unseen (reference before) url parent o db).1
  push-HeldSame url parent (some i) db e u h = refl
  push-HeldSame url parent none db e u h =
      let differs =
        unheld_differs other url u db (unheld_of_none other (db.hashes url_status url) e) h in
      rw differs refl

  pop-HeldSame :
      (id : String) (now : ℕ) (o : Option String) (db : Db)
      → get_last? (db.lists queue) ≡ o
      → AllPlaced db
      → HeldSame other db (pop_moved (reference before) id now o (lmove queue (worker id) db)).1
  pop-HeldSame id now none db e p u h = rw e refl
  pop-HeldSame id now (some url) db e p u h =
      let (i, k, st) = queued_last url db e p in
      let n =
        unheld_of_status other (db.hashes url_status url) CrawlStatus.queued (ground (arith, k, st))
          (λ q. cc) in
      let differs = unheld_differs other url u db n h in rw (e, k) (ground (arith, k, differs))

  mark-HeldSame :
      (url : String) (status : CrawlStatus) (o : Option UrlInfo) (db : Db)
      → db.hashes url_status url ≡ o
      → ¬ IsHeld other o
      → HeldSame other db (mark_known (reference before) url status o db).1
  mark-HeldSame url status none db e n u h = refl
  mark-HeldSame url status (some i) db e n u h =
      let differs = unheld_differs other url u db (rw e n) h in ground (arith, e, differs)

  retry-HeldSame :
      (url : String) (at : ℤ) (o : Option UrlInfo) (db : Db)
      → db.hashes url_status url ≡ o
      → ¬ IsHeld other o
      → HeldSame other db (retry_known (reference before) url at o db).1
  retry-HeldSame url at none db e n u h = refl
  retry-HeldSame url at (some i) db e n u h =
      let differs = unheld_differs other url u db (rw e n) h in ground (arith, e, differs)

  -- The other worker holds no URL of the list.
  abbrev NoneHeld : Db → List String → Type 0
  NoneHeld db urls = (u : String) → 0 < count u urls → ¬ IsHeld other (db.hashes url_status u)

  enqueue_one-HeldSame :
      (url : String) (db : Db)
      → ¬ IsHeld other (db.hashes url_status url)
      → HeldSame other db (enqueue_one (reference before) url db)
  enqueue_one-HeldSame url db n u h =
      let differs = unheld_differs other url u db n h in rw differs refl

  -- After one round the other worker holds none of the rest either.
  enqueue_one-NoneHeld :
      (url : String) (urls : List String) (db : Db)
      → NoneHeld db (url ∷ urls)
      → NoneHeld (enqueue_one (reference before) url db) urls
  enqueue_one-NoneHeld url urls db n u c = elim (Bool-cases (str_eq url u)) [
    | inl same ↦
        unheld_of_status other ((enqueue_one (reference before) url db).hashes url_status u)
          CrawlStatus.queued (enqueued-status before url u db same) (λ q. cc)
    | inr differs ↦ rw differs (n u (ground (arith, c)))
  ]

  enqueue_each-HeldSame :
      (urls : List String) (db : Db)
      → NoneHeld db urls
      → HeldSame other db (enqueue_each (reference before) urls db)
  unfolding enqueue_each
  enqueue_each-HeldSame [] db n u h = refl
  enqueue_each-HeldSame (url ∷ urls) db n u h =
      let one = enqueue_one-HeldSame url db (n url (ground (arith, eq_iff url url))) u h in
      enqueue_each-HeldSame urls (enqueue_one (reference before) url db)
        (enqueue_one-NoneHeld url urls db n) u (subst (IsHeld other) (sym one) h)
      ∙ one

  enqueue_due-HeldSame :
      (now : ℕ) (urls : List String) (db : Db)
      → zmembers_upto now (db.zsets retry_queue) ≡ urls
      → AllPlaced db
      → HeldSame other db (enqueue_due (reference before) now urls db)
  enqueue_due-HeldSame now [] db e p u h = refl
  enqueue_due-HeldSame now (url ∷ urls) db e p u h =
      enqueue_each-HeldSame (url ∷ urls) (zremrangebyscore retry_queue now db)
        (λ v c.
          unheld_of_status other (db.hashes url_status v) CrawlStatus.retry
            (due-retry before now (url ∷ urls) db v e (p v) (lt→ltb 0 (count v (url ∷ urls)) c))
            (λ q. cc))
        u h

module _ (net : NetUrl) (r : Redis) (other : String) (s : r.Store) where
  open r use {Store, contents, before}

  -- From what Redis shows of the store to the store.
  keeps :
      (db : Db) (t : Store)
      → contents t ≡ db
      → HeldSame other (contents s) db
      → Keeps net r other s t
  keeps db t shows same url held =
      subst (IsHeld other) (sym (ap (λ (d : Db). d.hashes url_status url) shows ∙ same url held))
        held

  pub push_url-Keeps : (url parent : String) → Keeps net r other s (push_url r url parent s).1
  unfolding push_url
  push_url-Keeps url parent =
      keeps (push_unseen (reference before) url parent (hget r url s) (contents s)).1
        (push_url r url parent s).1 (ap (λ o. o.1) (observe-push_url r url parent s))
        (push-HeldSame before other url parent (hget r url s) (contents s) refl)

  pub pop_url-Keeps :
      (id : String) (now : ℕ) → IsSound net r s → Keeps net r other s (pop_url r id now s).1
  unfolding pop_url
  pop_url-Keeps id now sound =
      keeps (pop_url (reference before) id now (contents s)).1 (pop_url r id now s).1
        (ap (λ o. o.1) (observe-pop_url r id now s))
        (pop-HeldSame before other id now (get_last? ((contents s).lists queue)) (contents s) refl
          sound.0)

  pub enqueue_urls-Keeps : (now : ℕ) → IsSound net r s → Keeps net r other s (enqueue_urls r now s)
  unfolding enqueue_urls
  enqueue_urls-Keeps now sound =
      keeps (enqueue_urls (reference before) now (contents s)) (enqueue_urls r now s)
        (contents-enqueue_urls r now s)
        (enqueue_due-HeldSame before other now (zmembers_upto now ((contents s).zsets retry_queue))
          (contents s) refl sound.0)

  module _ (id url : String) (distinct : id ≢ other) (held : Holds net r id url s) where
    pub mark_processed-Keeps :
        (status : CrawlStatus) → Keeps net r other s (mark_processed r url status s).1
    unfolding mark_processed
    mark_processed-Keeps status =
        keeps (mark_known (reference before) url status (hget r url s) (contents s)).1
          (mark_processed r url status s).1 (ap (λ o. o.1) (observe-mark_processed r url status s))
          (mark-HeldSame before other url status (hget r url s) (contents s) refl
            (unheld_of_owner id other (hget r url s) distinct held))

    pub retry_url-Keeps : (at : ℤ) → Keeps net r other s (retry_url r url at s).1
    unfolding retry_url
    retry_url-Keeps at =
        keeps (retry_known (reference before) url at (hget r url s) (contents s)).1
          (retry_url r url at s).1 (ap (λ o. o.1) (observe-retry_url r url at s))
          (retry-HeldSame before other url at (hget r url s) (contents s) refl
            (unheld_of_owner id other (hget r url s) distinct held))
