-- ===== src/Redis/Processing/Recover.antt =====
-- What `recoverScript` leaves: the record of the URL, and the queue.
use oafse.Common.{◌≡◌, String, Option, none, some, ◌∷◌, ◌∙◌, ap, refl, str_eq, if◌then◌else◌, Bool}
use oafse.Storage.Model.{CrawlStatus}
use oafse.Redis.Info.{url_status, UrlInfo, queue}
use oafse.Redis.Db.{Db}
use oafse.Redis.Api.{Redis, reference}
use oafse.Redis.Scripts.{hget, recover, recover_known, pushed_info}
use oafse.Redis.Scripts.Simulation.{contents-recover}

abbrev pub recovered_info : Option UrlInfo → UrlInfo
recovered_info none = pushed_info none 0
recovered_info (some info) = record info { status = CrawlStatus.queued }

recover_known_shows :
    (before : String → String → Bool) (url u : String) (o : Option UrlInfo) (db : Db)
    → ((recover_known (reference before) url o db).hashes url_status u
        ≡ (if str_eq url u then some (recovered_info o) else db.hashes url_status u))
      × ((recover_known (reference before) url o db).lists queue ≡ url ∷ db.lists queue)
recover_known_shows before url u none db = (refl, refl)
recover_known_shows before url u (some i) db = (refl, refl)

module _ (r : Redis) (url : String) where
  open r use {Store, contents, before}

  recover_shows :
      (s : Store)
      → contents (recover r url s)
        ≡ recover_known (reference before) url (hget r url s) (contents s)
  unfolding recover
  recover_shows s = contents-recover r url s

  pub hget-recover :
      (u : String) (s : Store)
      → hget r u (recover r url s)
        ≡ (if str_eq url u then some (recovered_info (hget r url s)) else hget r u s)
  hget-recover u s =
      ap (λ (db : Db). db.hashes url_status u) (recover_shows s)
      ∙ (recover_known_shows before url u (hget r url s) (contents s)).0

  pub queue-recover :
      (s : Store) → (contents (recover r url s)).lists queue ≡ url ∷ (contents s).lists queue
  queue-recover s =
      ap (λ (db : Db). db.lists queue) (recover_shows s)
      ∙ (recover_known_shows before url url (hget r url s) (contents s)).1
