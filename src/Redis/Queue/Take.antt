-- ===== src/Redis/Queue/Take.antt =====
-- `TakeOn` of the queue, on each of its branches.
use oafse.Common.{
  ℕ, ◌≡◌, ◌∙◌, String, Bool, Option, some, List, [], ◌∷◌, ◌++◌, ap, refl, arith, str_eq, eq_iff,
  if◌then◌else◌,
}
use oafse.Common.Int.{pos}
use oafse.Storage.Model.{CrawlStatus}
use oafse.Redis.Info.{url_status, UrlInfo, queue, worker}
use oafse.Redis.Db.{Db, get_last?, init, lpush, update, move_last}
use oafse.Redis.Api.{Redis, reference, observe}
use oafse.Redis.Scripts.Simulation.{observe-pop_url}
use oafse.Redis.Scripts.{PopReply, hget, pop_url, pop_taken}
use oafse.Redis.Net.{ok, err, up, Error}
use oafse.Redis.Queue.{queue_take_on}

get_last?_snoc : (xs : List String) (x : String) → get_last? (xs ++ x ∷ []) ≡ some x
get_last?_snoc [] x = refl
get_last?_snoc (y ∷ []) x = refl
get_last?_snoc (y ∷ z ∷ zs) x = get_last?_snoc (z ∷ zs) x

init_snoc : (xs : List String) (x : String) → init (xs ++ x ∷ []) ≡ xs
init_snoc [] x = refl
init_snoc (y ∷ []) x = refl
init_snoc (y ∷ z ∷ zs) x = ap (λ l. y ∷ l) (init_snoc (z ∷ zs) x)

-- The script on a queue that ends in `url`.
pop_url_last :
    (before : String → String → Bool) (id : String) (now : ℕ) (db : Db) (rest : List String)
    (url : String) (o : Option UrlInfo)
    → db.lists queue ≡ rest ++ url ∷ []
    → db.hashes url_status url ≡ o
    → pop_url (reference before) id now db
      ≡ pop_taken
          (reference before)
          id
          now
          url
          o
          (lpush (worker id) url (record db { lists = update queue rest db.lists }))
unfolding pop_url
pop_url_last before id now db rest url o e h =
    rw (e, get_last?_snoc rest url, move_last) (rw (e, init_snoc rest url) (rw h))

module _ (r : Redis) where
  open r use {Store, contents, before, lmove_reply-eq, contents-lmove}

  -- On an empty queue `TakeOn` returns ErrQueueEmpty and changes nothing that Redis shows.
  pub queue_take_on_empty :
      (id : String) (now : ℕ) (s : Store)
      → (contents s).lists queue ≡ []
      → ((queue_take_on r up id now s).0 ≡ err Error.queue_empty)
        × (contents (queue_take_on r up id now s).1 ≡ contents s)
  unfolding queue_take_on pop_url
  queue_take_on_empty id now s e =
      (rw (lmove_reply-eq, e), rw (lmove_reply-eq, e) (rw contents-lmove (rw e)))

  -- What Redis shows behind `TakeOn`, and what its script replied, on such a queue.
  pub observe_last :
      (id : String) (now : ℕ) (s : Store) (rest : List String) (url : String) (o : Option UrlInfo)
      → (contents s).lists queue ≡ rest ++ url ∷ []
      → hget r url s ≡ o
      → observe r (pop_url r id now s)
        ≡ pop_taken (reference before) id now url o (
            lpush
              (worker id)
              url
              (record (contents s) { lists = update queue rest (contents s).lists }))
  observe_last id now s rest url o e h =
      observe-pop_url r id now s ∙ pop_url_last before id now (contents s) rest url o e h

  -- Where the queue ends in `url` and its record has a parent, `TakeOn` returns that URL
  -- with the tries and the parent of the record. It leaves the rest of the
  -- queue, puts the URL at the head of the worker's list, records that the worker holds it since
  -- `now`, and changes the record of no other URL.
  pub queue_take_on_oldest :
      (id : String) (now : ℕ) (s : Store) (rest : List String) (url parent : String)
      (info : UrlInfo)
      → (contents s).lists queue ≡ rest ++ url ∷ []
      → hget r url s ≡ some info
      → info.parent ≡ some parent
      → ((queue_take_on r up id now s).0
          ≡ ok (record { url = url; parent = parent; try = info.try }))
        × ((contents (queue_take_on r up id now s).1).lists queue ≡ rest)
        × ((contents (queue_take_on r up id now s).1).lists (worker id)
            ≡ url ∷ (contents s).lists (worker id))
        × ((u : String)
            → hget r u (queue_take_on r up id now s).1 ≡ (
                if str_eq url u
                then some (record info {
                  status = CrawlStatus.processing;
                  worker_id = id;
                  take_on_at = pos now;
                })
                else hget r u s))
  unfolding queue_take_on
  queue_take_on_oldest id now s rest url parent info e h p =
      let same = observe_last id now s rest url (some info) e h in
      (
        rw (ap (λ (o : PopReply × Db). o.0) same) (rw p),
        ap (λ (o : PopReply × Db). o.1.lists queue) same,
        ap (λ (o : PopReply × Db). o.1.lists (worker id)) same ∙ ground (arith, eq_iff id id),
        λ u. ap (λ (o : PopReply × Db). o.1.hashes url_status u) same,
      )
