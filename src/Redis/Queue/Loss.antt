-- ===== src/Redis/Queue/Loss.antt =====
-- `TakeOn` of the queue at a URL whose status record is missing, or has no parent.
use oafse.Common.{ℕ, ◌≡◌, String, none, some, List, [], ◌∷◌, ◌++◌, ◌∙◌, ap, refl, arith, eq_iff}
use oafse.Common.Int.{pos}
use oafse.Storage.Model.{CrawlStatus}
use oafse.Redis.Info.{url_status, UrlInfo, queue, processing_index, worker}
use oafse.Redis.Db.{Db}
use oafse.Redis.Api.{Redis}
use oafse.Redis.Scripts.{PopReply, hget, recover}
use oafse.Redis.Processing.Recover.{recovered_info, hget-recover, queue-recover}
use oafse.Redis.Net.{ok, err, panic, up, Error}
use oafse.Redis.Queue.{queue_take_on}
use oafse.Redis.Queue.Take.{observe_last}
use oafse.Redis.Processing.{recover_url}

module _ (r : Redis) where
  open r use {Store, contents, before}

  -- Where the queue ends in a URL with no status record, `TakeOn` returns the script's error and
  -- the URL is lost: it leaves the queue for the worker's list, its record stays missing, and the
  -- processing index, which is all that the health check reads, stays as it was.
  pub queue_take_on_unrecorded :
      (id : String) (now : ℕ) (s : Store) (rest : List String) (url : String)
      → (contents s).lists queue ≡ rest ++ url ∷ []
      → hget r url s ≡ none
      → ((queue_take_on r up id now s).0 ≡ err Error.script)
        × ((contents (queue_take_on r up id now s).1).lists queue ≡ rest)
        × ((contents (queue_take_on r up id now s).1).lists (worker id)
            ≡ url ∷ (contents s).lists (worker id))
        × ((contents (queue_take_on r up id now s).1).sets processing_index
            ≡ (contents s).sets processing_index)
        × (hget r url (queue_take_on r up id now s).1 ≡ none)
  unfolding queue_take_on
  queue_take_on_unrecorded id now s rest url e h =
      let same = observe_last r id now s rest url none e h in
      (
        rw (ap (λ (o : PopReply × Db). o.0) same),
        ap (λ (o : PopReply × Db). o.1.lists queue) same,
        ap (λ (o : PopReply × Db). o.1.lists (worker id)) same ∙ ground (arith, eq_iff id id),
        ap (λ (o : PopReply × Db). o.1.sets processing_index) same,
        ap (λ (o : PopReply × Db). o.1.hashes url_status url) same ∙ h,
      )

  -- Where the queue ends in a URL whose record has no parent, `TakeOn` panics, and the URL is left
  -- in processing with a record that still has no parent.
  pub queue_take_on_parentless :
      (id : String) (now : ℕ) (s : Store) (rest : List String) (url : String) (info : UrlInfo)
      → (contents s).lists queue ≡ rest ++ url ∷ []
      → hget r url s ≡ some info
      → info.parent ≡ none
      → ((queue_take_on r up id now s).0 ≡ panic)
        × (hget r url (queue_take_on r up id now s).1
            ≡ some (record info {
              status = CrawlStatus.processing;
              worker_id = id;
              take_on_at = pos now;
            }))
  unfolding queue_take_on
  queue_take_on_parentless id now s rest url info e h p =
      let same = observe_last r id now s rest url (some info) e h in
      (
        rw (ap (λ (o : PopReply × Db). o.0) same) (rw p),
        ap (λ (o : PopReply × Db). o.1.hashes url_status url) same ∙ ground (arith, eq_iff url url),
      )

  -- The health check puts a URL of the index that has no status record back into the queue. Where
  -- the queue was empty, the next `TakeOn` panics on it.
  pub recover_url_orphan :
      (id : String) (now : ℕ) (s : Store) (url : String)
      → (contents s).lists queue ≡ []
      → hget r url s ≡ none
      → ((recover_url r up url s).0 ≡ ok tt)
        × ((queue_take_on r up id now (recover_url r up url s).1).0 ≡ panic)
  unfolding recover_url
  recover_url_orphan id now s url e h = (
    refl,
    (queue_take_on_parentless id now (recover r url s) [] url (recovered_info none)
        (queue-recover r url s ∙ ap (λ l. url ∷ l) e)
        (hget-recover r url url s ∙ rw h (ground (arith, eq_iff url url))) refl).0,
  )
