-- ===== src/Crawler/Take.antt =====
-- `TakeOn` on a sound store: the URL that a worker gets is one that it then holds, and its text is
-- the one that stands in Redis.
use oafse.Common.{
  ℕ, ◌≡◌, ◌∙◌, String, Bool, Option, none, some, ap, refl, sym, subst, arith, eq_refl,
}
use oafse.Common.Runs.{Ends, and_then-Ends}
use oafse.Domain.Url.{Url, GoUrl, NetUrl, normalize}
use oafse.Storage.Model.{UrlCache}
use oafse.Storage.Mapper.{domain_url_of, to_domain_url}
use oafse.Redis.Info.{UrlInfo, url_status, queue, worker}
use oafse.Redis.Db.{Db, get_last?, lmove, move_last}
use oafse.Redis.Api.{Redis, reference}
use oafse.Redis.Scripts.{
  PopReply, nil, fields, decode_error, pop_url, pop_moved, pop_taken, enqueue_urls, retry_count,
}
use oafse.Redis.Scripts.Simulation.{observe-pop_url}
use oafse.Redis.Net.{Link, call}
use oafse.Redis.Queue.{taken, queue_take_on}
use oafse.Redis.UrlDs.{enqueue, take_on}
use oafse.Redis.Placement.{AllPlaced}
use oafse.Redis.Placement.Take.{queued_last}
use oafse.Redis.Reach.{takes, enqueues}
use oafse.Repo.UrlRepo.{repo_take_on}
use oafse.Crawler.Readable.{
  IsNormalText, AllReadable, IsReadable, parent_field, pop_url-AllReadable,
  enqueue_urls-AllReadable,
}
use oafse.Crawler.Holding.{pop_url-Keeps, enqueue_urls-Keeps}
use oafse.Crawler.Sound.{
  IsHeld, IsSound, Holds, Moves, Moves-refl, Step-Moves, Moves-trans, call-Ends,
}

-- The reply names a URL that the worker holds, with a parent and a text that prints back.
abbrev pub Fits : NetUrl → String → PopReply → Db → Type 0
Fits net id nil db = Unit
Fits net id decode_error db = Unit
Fits net id (fields url try none) db = ⊥
Fits net id (fields url try (some parent)) db =
    IsNormalText net url × IsHeld id (db.hashes url_status url)

module _ (net : NetUrl) (before : String → String → Bool) (id : String) (now : ℕ) where
  fields-Fits :
      (url : String) (try : ℕ) (o : Option String) (db : Db)
      → IsReadable net url (some o)
      → IsHeld id (db.hashes url_status url)
      → Fits net id (fields url try o) db
  fields-Fits url try none db h held = h
  fields-Fits url try (some parent) db h held = (h, held)

  pop_taken-Fits :
      (url : String) (i : UrlInfo) (db : Db)
      → IsReadable net url (some i.parent)
      → Fits net id
          (pop_taken (reference before) id now url (some i) db).0
          (pop_taken (reference before) id now url (some i) db).1
  pop_taken-Fits url i db h =
      fields-Fits url i.try i.parent (pop_taken (reference before) id now url (some i) db).1 h
        (rw (eq_refl url) (refl, refl))

  pop_moved-Fits :
      (o : Option String) (db : Db)
      → get_last? (db.lists queue) ≡ o
      → AllPlaced db
      → AllReadable net db
      → Fits net id
          (pop_moved (reference before) id now o (lmove queue (worker id) db)).0
          (pop_moved (reference before) id now o (lmove queue (worker id) db)).1
  pop_moved-Fits none db e p h = tt
  pop_moved-Fits (some url) db e p h =
      let (i, k, st) = queued_last url db e p in
      rw (e, k)
        (pop_taken-Fits url i (move_last queue (worker id) (some url) db)
          (subst (IsReadable net url) (ap parent_field k) (h url)))

module _ (net : NetUrl) (r : Redis) (other id : String) where
  open r use {Store, contents, before}

  pub pop_url-Fits :
      (now : ℕ) (s : Store)
      → IsSound net r s
      → Fits net id (pop_url r id now s).0 (contents (pop_url r id now s).1)
  pop_url-Fits now s h =
      subst (λ (o : PopReply × Db). Fits net id o.0 o.1) (sym (observe-pop_url r id now s))
        (unfold pop_url in
          pop_moved-Fits net before id now (get_last? ((contents s).lists queue)) (contents s) refl
            h.0 h.1)

  pop_url-Moves :
      (now : ℕ) (s : Store) → IsSound net r s → Moves net r other s (pop_url r id now s).1
  pop_url-Moves now s h =
      Step-Moves net r other s (pop_url r id now s).1 h (takes id now)
        (pop_url-Keeps net r other s id now h) (pop_url-AllReadable net r s h.1 id now h.0)

  pub enqueue_urls-Moves :
      (now : ℕ) (s : Store) → IsSound net r s → Moves net r other s (enqueue_urls r now s)
  enqueue_urls-Moves now s h =
      Step-Moves net r other s (enqueue_urls r now s) h (enqueues now)
        (enqueue_urls-Keeps net r other s now h) (enqueue_urls-AllReadable net r s h.1 now h.0)

  -- What a worker has got.
  abbrev Got : Store → UrlCache → Store → Type 0
  Got s u t = Moves net r other s t × (IsNormalText net u.url × Holds net r id u.url t)

  taken_rule :
      (s t : Store) (reply : PopReply)
      → Moves net r other s t
      → Fits net id reply (contents t)
      → Ends (Moves net r other s) (Got s) (taken reply, t)
  taken_rule s t nil m f = m
  taken_rule s t decode_error m f = m
  taken_rule s t (fields url try none) m f = f
  taken_rule s t (fields url try (some parent)) m f = (m, f)

  queue_take_on_rule :
      (link : Link) (now : ℕ) (s t : Store)
      → Moves net r other s t
      → Ends (Moves net r other s) (Got s) (queue_take_on r link id now t)
  unfolding queue_take_on
  queue_take_on_rule link now s t m =
      let after =
        Moves-trans net r other s t (pop_url r id now t).1 m (pop_url-Moves now t m.1.1) in
      and_then-Ends (Moves net r other s)
        (λ reply u. Moves net r other s u × Fits net id reply (contents u)) (Got s)
        (call link (pop_url r id now) t) (λ reply u. (taken reply, u))
        (call-Ends net r link (pop_url r id now) t (Moves net r other s)
          (λ reply u. Moves net r other s u × Fits net id reply (contents u)) m after
          (after, pop_url-Fits now t m.1.1))
        (λ reply u (mu, f). taken_rule s u reply mu f)

  take_on_rule :
      (enqueue_link link : Link) (now later : ℕ) (s : Store)
      → IsSound net r s
      → Ends (Moves net r other s) (Got s) (take_on r enqueue_link link id now later s)
  unfolding take_on enqueue
  take_on_rule enqueue_link link now later s h =
      let m : Store → ℕ × Store = λ s'. let t = enqueue_urls r now s' in (retry_count r t, t) in
      and_then-Ends (Moves net r other s) (λ _. Moves net r other s) (Got s) (call enqueue_link m s)
        (λ _ s'. queue_take_on r link id later s')
        (call-Ends net r enqueue_link m s (Moves net r other s) (λ _. Moves net r other s)
          (Moves-refl net r other s h) (enqueue_urls-Moves now s h) (enqueue_urls-Moves now s h))
        (λ _ t mt. queue_take_on_rule link later s t mt)

  -- The URL that the use case gets.
  abbrev pub TakenBy : Store → Url → Store → Type 0
  TakenBy s u t = Moves net r other s t × Holds net r id (net.string u.url) t

  to_domain_rule :
      (s t : Store) (u : UrlCache) (o : Option GoUrl)
      → net.parse u.url ≡ o
      → Got s u t
      → Ends (Moves net r other s) (TakenBy s) (domain_url_of net u o, t)
  to_domain_rule s t u none e got = got.0
  to_domain_rule s t u (some g) e got =
      let (g', parsed, printed) = got.1.0 in
      let same : g' ≡ g = ground (arith, e, parsed) in
      let text : u.url ≡ net.string (normalize net g) =
        sym printed ∙ ap (λ (x : GoUrl). net.string (normalize net x)) same in
      (got.0, subst (λ (url : String). Holds net r id url t) text got.1.1)

  -- `TakeOn` of the repository on a sound store: whatever requests are lost, it leads there by legal
  -- steps to a sound store in which another worker holds what it held, and the worker holds the URL that it returns, under the text that the
  -- use case prints for it.
  pub repo_take_on-Ends :
      (enqueue_link link : Link) (now later : ℕ) (s : Store)
      → IsSound net r s
      → Ends (Moves net r other s) (TakenBy s) (repo_take_on net r enqueue_link link id now later s)
  unfolding repo_take_on
  repo_take_on-Ends enqueue_link link now later s h =
      and_then-Ends (Moves net r other s) (Got s) (TakenBy s)
        (take_on r enqueue_link link id now later s) (λ u s'. (to_domain_url net u, s'))
        (take_on_rule enqueue_link link now later s h)
        (λ u t got. to_domain_rule s t u (net.parse u.url) refl got)
