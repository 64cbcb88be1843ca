-- ===== src/Crawler/Readable.antt =====
-- Records that the crawler can work with: each has a parent, and its text is that of the URL which
-- `TakeOn` makes of it.
use oafse.Common.{
  ℕ, ◌<◌, ◌≡◌, ◌≢◌, ◌∙◌, String, Bool, Option, none, some, List, [], ◌∷◌, str_eq, eq_iff, ap, sym,
  subst, refl, arith, count, lt→ltb, Bool-cases, inl, inr,
}
use oafse.Common.Int.{ℤ}
use oafse.Domain.Url.{GoUrl, NetUrl, normalize}
use oafse.Storage.Model.{CrawlStatus}
use oafse.Redis.Info.{UrlInfo, url_status, queue, worker, retry_queue}
use oafse.Redis.Db.{Db, get_last?, lmove, zmembers_upto, zremrangebyscore}
use oafse.Redis.Api.{Redis, reference}
use oafse.Redis.Scripts.{
  hget, push_unseen, push_url, pop_moved, pop_url, retry_known, retry_url, mark_known,
  mark_processed, enqueue_each, enqueue_one, enqueue_due, enqueue_urls,
}
use oafse.Redis.Scripts.Simulation.{
  observe-push_url, observe-pop_url, observe-retry_url, observe-mark_processed,
  contents-enqueue_urls,
}
use oafse.Redis.Placement.{AllPlaced}
use oafse.Redis.Frontier.{recorded_status}
use oafse.Redis.Frontier.Refines.{due-retry}
use oafse.Redis.Placement.Take.{queued_last}

-- The text prints back from the normal form of what it parses to.
abbrev pub IsNormalText : NetUrl → String → Type 0
IsNormalText net text =
    (g : GoUrl) × (net.parse text ≡ some g) × (net.string (normalize net g) ≡ text)

abbrev pub parent_field : Option UrlInfo → Option (Option String)
parent_field none = none
parent_field (some info) = some info.parent

-- By the record's parent: none has no record, `some none` is a record without one.
abbrev pub IsReadable : NetUrl → String → Option (Option String) → Type 0
IsReadable net text none = Unit
IsReadable net text (some none) = ⊥
IsReadable net text (some (some parent)) = IsNormalText net text

abbrev pub AllReadable : NetUrl → Db → Type 0
AllReadable net db = (u : String) → IsReadable net u (parent_field (db.hashes url_status u))

-- The parent that a database keeps of each URL.
abbrev parents : Db → String → Option (Option String)
parents db u = parent_field (db.hashes url_status u)

-- Either no parent changes, or one URL gets one.
abbrev SameParents : Db → Db → Type 0
SameParents db db' = (u : String) → parents db' u ≡ parents db u

module _ (before : String → String → Bool) where
  retry-SameParents :
      (url : String) (at : ℤ) (o : Option UrlInfo) (db : Db)
      → db.hashes url_status url ≡ o
      → SameParents db (retry_known (reference before) url at o db).1
  retry-SameParents url at none db e u = refl
  retry-SameParents url at (some i) db e u = ground (arith, e, eq_iff url u)

  mark-SameParents :
      (url : String) (status : CrawlStatus) (o : Option UrlInfo) (db : Db)
      → db.hashes url_status url ≡ o
      → SameParents db (mark_known (reference before) url status o db).1
  mark-SameParents url status none db e u = refl
  mark-SameParents url status (some i) db e u = ground (arith, e, eq_iff url u)

  pop-SameParents :
      (id : String) (now : ℕ) (o : Option String) (db : Db)
      → get_last? (db.lists queue) ≡ o
      → AllPlaced db
      → SameParents db (pop_moved (reference before) id now o (lmove queue (worker id) db)).1
  pop-SameParents id now none db e p u = rw e refl
  pop-SameParents id now (some url) db e p u =
      let (i, h, st) = queued_last url db e p in rw (e, h) (ground (arith, h, eq_iff url u))

  enqueue_one-SameParents :
      (url : String) (i : UrlInfo) (db : Db)
      → db.hashes url_status url ≡ some i
      → SameParents db (enqueue_one (reference before) url db)
  enqueue_one-SameParents url i db e u = rw e (ground (arith, e, eq_iff url u))

  -- Every URL of the list has a record.
  abbrev AllKnown : Db → List String → Type 0
  AllKnown db urls = (u : String) → 0 < count u urls → parents db u ≢ none

  known-info : (o : Option UrlInfo) → parent_field o ≢ none → (i : UrlInfo) × (o ≡ some i)
  known-info none h = absurd (h refl)
  known-info (some i) h = (i, refl)

  enqueue_each-SameParents :
      (urls : List String) (db : Db)
      → AllKnown db urls
      → SameParents db (enqueue_each (reference before) urls db)
  unfolding enqueue_each
  enqueue_each-SameParents [] db k u = refl
  enqueue_each-SameParents (url ∷ urls) db k u =
      let (i, e) = known-info (db.hashes url_status url) (k url (ground (arith, eq_iff url url))) in
      let one = enqueue_one-SameParents url i db e in
      enqueue_each-SameParents urls (enqueue_one (reference before) url db)
        (λ v h. rw (one v) (k v (ground (arith, h)))) u
      ∙ one u

  known-parent :
      (o : Option UrlInfo) → recorded_status o ≡ some CrawlStatus.retry → parent_field o ≢ none
  known-parent none h = absurd (cc)
  known-parent (some i) h = λ e. cc

  enqueue_due-SameParents :
      (now : ℕ) (urls : List String) (db : Db)
      → zmembers_upto now (db.zsets retry_queue) ≡ urls
      → AllPlaced db
      → SameParents db (enqueue_due (reference before) now urls db)
  enqueue_due-SameParents now [] db e p u = refl
  enqueue_due-SameParents now (url ∷ urls) db e p u =
      enqueue_each-SameParents (url ∷ urls) (zremrangebyscore retry_queue now db)
        (λ v h.
          known-parent (db.hashes url_status v)
            (due-retry before now (url ∷ urls) db v e (p v) (lt→ltb 0 (count v (url ∷ urls)) h)))
        u

  push-AllReadable :
      (net : NetUrl) (url parent : String) (o : Option UrlInfo) (db : Db)
      → db.hashes url_status url ≡ o
      → IsNormalText net url
      → AllReadable net db
      → AllReadable net (push_unseen (reference before) url parent o db).1
  push-AllReadable net url parent none db e n h u = elim (Bool-cases (str_eq url u)) [
    | inl same ↦
        let is_url : url ≡ u = ground (arith, same, eq_iff url u) in
        rw same (subst (IsNormalText net) is_url n)
    | inr other ↦ rw other (h u)
  ]
  push-AllReadable net url parent (some i) db e n h u = h u

  same-AllReadable :
      (net : NetUrl) (db db' : Db) → SameParents db db' → AllReadable net db → AllReadable net db'
  same-AllReadable net db db' same h u = subst (IsReadable net u) (sym (same u)) (h u)

-- The scripts that a worker runs keep every record readable, with a push of normal texts.
module _ (net : NetUrl) (r : Redis) (s : r.Store) (readable : AllReadable net (r.contents s)) where
  open r use {contents, before}

  abbrev Keeps : Db → Type 0
  Keeps db = AllReadable net db

  pub push_url-AllReadable :
      (url parent : String) → IsNormalText net url → Keeps (contents (push_url r url parent s).1)
  unfolding push_url
  push_url-AllReadable url parent n =
      subst Keeps (sym (ap (λ o. o.1) (observe-push_url r url parent s)))
        (push-AllReadable before net url parent (hget r url s) (contents s) refl n readable)

  pub retry_url-AllReadable : (url : String) (at : ℤ) → Keeps (contents (retry_url r url at s).1)
  unfolding retry_url
  retry_url-AllReadable url at = subst Keeps (sym (ap (λ o. o.1) (observe-retry_url r url at s))) (
      same-AllReadable before net (contents s)
        ((retry_known (reference before) url at (hget r url s) (contents s)).1)
        (retry-SameParents before url at (hget r url s) (contents s) refl) readable)

  pub mark_processed-AllReadable :
      (url : String) (status : CrawlStatus) → Keeps (contents (mark_processed r url status s).1)
  unfolding mark_processed
  mark_processed-AllReadable url status =
      subst Keeps (sym (ap (λ o. o.1) (observe-mark_processed r url status s))) (
        same-AllReadable before net (contents s)
          ((mark_known (reference before) url status (hget r url s) (contents s)).1)
          (mark-SameParents before url status (hget r url s) (contents s) refl) readable)

  pub pop_url-AllReadable :
      (id : String) (now : ℕ) → AllPlaced (contents s) → Keeps (contents (pop_url r id now s).1)
  unfolding pop_url
  pop_url-AllReadable id now p = subst Keeps (sym (ap (λ o. o.1) (observe-pop_url r id now s))) (
      same-AllReadable before net (contents s)
        ((pop_moved (reference before) id now (get_last? ((contents s).lists queue))
          (lmove queue (worker id) (contents s))).1)
        (pop-SameParents before id now (get_last? ((contents s).lists queue)) (contents s) refl p)
        readable)

  pub enqueue_urls-AllReadable :
      (now : ℕ) → AllPlaced (contents s) → Keeps (contents (enqueue_urls r now s))
  unfolding enqueue_urls
  enqueue_urls-AllReadable now p = subst Keeps (sym (contents-enqueue_urls r now s)) (
      same-AllReadable before net (contents s)
        (enqueue_due (reference before) now (zmembers_upto now ((contents s).zsets retry_queue))
          (contents s))
        (enqueue_due-SameParents before now (zmembers_upto now ((contents s).zsets retry_queue))
          (contents s) refl p)
        readable)
