-- ===== src/Crawler/Gains.antt =====
-- What the scripts add to the URLs that a worker holds: a take the URL that it hands out, and the
-- others nothing.
use oafse.Common.{
  ℕ, ◌≡◌, ◌≢◌, ◌⊎◌, inl, inr, String, Bool, true, false, Option, none, some, List, [], ◌∷◌, refl,
  sym, subst, ap, str_eq, if◌then◌else◌,
}
use oafse.Common.Int.{ℤ}
use oafse.Domain.Url.{NetUrl}
use oafse.Storage.Model.{CrawlStatus}
use oafse.Redis.Info.{UrlInfo, url_status, queue, worker, retry_queue}
use oafse.Redis.Db.{Db, get_last?, lmove, zmembers_upto, zremrangebyscore}
use oafse.Redis.Api.{Redis, reference}
use oafse.Redis.Scripts.{
  PopReply, nil, fields, decode_error, enqueued_info, hget, push_url, push_unseen, pop_url,
  pop_moved, retry_url, retry_known, mark_processed, mark_known, enqueue_urls, enqueue_due,
  enqueue_each, enqueue_one,
}
use oafse.Redis.Scripts.Simulation.{
  observe-push_url, observe-pop_url, observe-retry_url, observe-mark_processed,
  contents-enqueue_urls,
}
use oafse.Redis.Placement.{AllPlaced}
use oafse.Redis.Placement.Take.{queued_last}
use oafse.Crawler.Sound.{IsHeld, IsSound, Holds}

-- A record that is written over `o` where `here` says so.
pub written :
    (id : String) (here : Bool) (x : UrlInfo) (o o' : Option UrlInfo)
    → o' ≡ (if here then some x else o)
    → x.status ≢ CrawlStatus.processing
    → IsHeld id o'
    → IsHeld id o × (here ≡ false)
written id true x o o' e n h = absurd (n (subst (IsHeld id) e h).0)
written id false x o o' e n h = (subst (IsHeld id) e h, refl)

taken_over :
    (id : String) (here : Bool) (x : UrlInfo) (o o' : Option UrlInfo)
    → o' ≡ (if here then some x else o)
    → IsHeld id o'
    → IsHeld id o ⊎ (here ≡ true)
taken_over id true x o o' e h = inr refl
taken_over id false x o o' e h = inl (subst (IsHeld id) e h)

-- The worker holds nothing that it did not hold.
abbrev pub NoneGained : String → Db → Db → Type 0
NoneGained id db db' =
    (v : String) → IsHeld id (db'.hashes url_status v) → IsHeld id (db.hashes url_status v)

-- It holds nothing else, and the URL no more.
abbrev Released : String → String → Db → Db → Type 0
Released id url db db' =
    (v : String)
    → IsHeld id (db'.hashes url_status v)
    → IsHeld id (db.hashes url_status v) × (str_eq url v ≡ false)

-- By the reply of a take: nothing is gained, or the URL of the reply.
abbrev pub Gained : String → PopReply → Db → Db → Type 0
Gained id nil db db' = NoneGained id db db'
Gained id decode_error db db' = Unit
Gained id (fields url try parent) db db' =
    (v : String)
    → IsHeld id (db'.hashes url_status v)
    → IsHeld id (db.hashes url_status v) ⊎ (str_eq url v ≡ true)

enqueued-waits : (o : Option UrlInfo) → (enqueued_info o).status ≢ CrawlStatus.processing
enqueued-waits none = λ q. cc
enqueued-waits (some i) = λ q. cc

module _ (before : String → String → Bool) (id : String) where
  push-NoneGained :
      (url parent : String) (o : Option UrlInfo) (db : Db)
      → NoneGained id db (push_unseen (reference before) url parent o db).1
  push-NoneGained url parent (some i) db v h = h
  push-NoneGained url parent none db v h =
      (written id (str_eq url v) _ (db.hashes url_status v) _ refl (λ q. cc) h).0

  pop-Gained :
      (now : ℕ) (o : Option String) (db : Db)
      → get_last? (db.lists queue) ≡ o
      → AllPlaced db
      → Gained id
          (pop_moved (reference before) id now o (lmove queue (worker id) db)).0
          db
          (pop_moved (reference before) id now o (lmove queue (worker id) db)).1
  pop-Gained now none db e p = rw e (λ v h. h)
  pop-Gained now (some url) db e p =
      let (i, k, st) = queued_last url db e p in
      rw (e, k) (λ v h. taken_over id (str_eq url v) _ (db.hashes url_status v) _ refl h)

  mark-Released :
      (url : String) (status : CrawlStatus) (o : Option UrlInfo) (db : Db)
      → IsHeld id o
      → status ≢ CrawlStatus.processing
      → Released id url db (mark_known (reference before) url status o db).1
  mark-Released url status none db held n v h = absurd held
  mark-Released url status (some i) db held n v h =
      written id (str_eq url v) (record i { status = status }) (db.hashes url_status v) _ refl n h

  retry-Released :
      (url : String) (at : ℤ) (o : Option UrlInfo) (db : Db)
      → IsHeld id o
      → Released id url db (retry_known (reference before) url at o db).1
  retry-Released url at none db held v h = absurd held
  retry-Released url at (some i) db held v h =
      written id (str_eq url v) _ (db.hashes url_status v) _ refl (λ q. cc) h

  enqueue_one-NoneGained :
      (url : String) (db : Db) → NoneGained id db (enqueue_one (reference before) url db)
  enqueue_one-NoneGained url db v h =
      (written id (str_eq url v) (enqueued_info (hget (reference before) url db))
        (db.hashes url_status v) _ refl (enqueued-waits (hget (reference before) url db)) h).0

  enqueue_each-NoneGained :
      (urls : List String) (db : Db) → NoneGained id db (enqueue_each (reference before) urls db)
  unfolding enqueue_each
  enqueue_each-NoneGained [] db v h = h
  enqueue_each-NoneGained (url ∷ urls) db v h =
      enqueue_one-NoneGained url db v
        (enqueue_each-NoneGained urls (enqueue_one (reference before) url db) v h)

  enqueue_due-NoneGained :
      (now : ℕ) (urls : List String) (db : Db)
      → NoneGained id db (enqueue_due (reference before) now urls db)
  enqueue_due-NoneGained now [] db v h = h
  enqueue_due-NoneGained now (url ∷ urls) db v h =
      enqueue_each-NoneGained (url ∷ urls) (zremrangebyscore retry_queue now db) v h

module _ (net : NetUrl) (r : Redis) (id : String) (s : r.Store) where
  open r use {Store, contents, before}

  -- The worker holds nothing in `t` that it does not hold in `s`.
  abbrev pub GainsNone : Store → Type 0
  GainsNone t = (v : String) → Holds net r id v t → Holds net r id v s

  pub push_url-GainsNone : (url parent : String) → GainsNone (push_url r url parent s).1
  unfolding push_url
  push_url-GainsNone url parent =
      subst (NoneGained id (contents s)) (sym (ap (λ o. o.1) (observe-push_url r url parent s)))
        (push-NoneGained before id url parent (hget r url s) (contents s))

  pub enqueue_urls-GainsNone : (now : ℕ) → GainsNone (enqueue_urls r now s)
  unfolding enqueue_urls
  enqueue_urls-GainsNone now =
      subst (NoneGained id (contents s)) (sym (contents-enqueue_urls r now s)) (
        enqueue_due-NoneGained before id now (zmembers_upto now ((contents s).zsets retry_queue))
          (contents s))

  pub pop_url-Gained :
      (now : ℕ)
      → IsSound net r s
      → Gained id (pop_url r id now s).0 (contents s) (contents (pop_url r id now s).1)
  unfolding pop_url
  pop_url-Gained now sound =
      subst (λ (o : PopReply × Db). Gained id o.0 (contents s) o.1)
        (sym (observe-pop_url r id now s))
        (pop-Gained before id now (get_last? ((contents s).lists queue)) (contents s) refl sound.0)

  module _ (url : String) (held : Holds net r id url s) where
    -- The worker holds the URL no more, and nothing new.
    abbrev pub Releases : Store → Type 0
    Releases t = (v : String) → Holds net r id v t → Holds net r id v s × (str_eq url v ≡ false)

    pub mark_processed-Releases :
        (status : CrawlStatus)
        → status ≢ CrawlStatus.processing
        → Releases (mark_processed r url status s).1
    unfolding mark_processed
    mark_processed-Releases status n =
        subst (Released id url (contents s))
          (sym (ap (λ o. o.1) (observe-mark_processed r url status s)))
          (mark-Released before id url status (hget r url s) (contents s) held n)

    pub retry_url-Releases : (at : ℤ) → Releases (retry_url r url at s).1
    unfolding retry_url
    retry_url-Releases at =
        subst (Released id url (contents s)) (sym (ap (λ o. o.1) (observe-retry_url r url at s)))
          (retry-Released before id url at (hget r url s) (contents s) held)
