-- ===== src/Crawler/Turns.antt =====
-- Workers side by side: what the others' calls of the URL repository leave of what one worker
-- relies on.
use oafse.Common.{ℕ, ◌≢◌, String, List}
use oafse.Common.Int.{ℤ}
use oafse.Common.Go.{GoResult, ok, err, panic}
use oafse.Common.Runs.{Ends}
use oafse.Domain.Url.{NetUrl, Url}
use oafse.Domain.Status.{CrawlStatus}
use oafse.UseCase.Parse.Contract.{IsTerminal}
use oafse.Redis.Api.{Redis}
use oafse.Redis.Net.{Link, up, request_lost, reply_lost}
use oafse.Redis.Queue.{Pipe, push_one}
use oafse.Redis.Scripts.{push_url}
use oafse.Redis.Reach
use oafse.Redis.UrlDs.{start}
use oafse.Repo.UrlRepo.{repo_take_on, repo_push_urls, repo_mark_processed, repo_retry_url}
use oafse.Crawler.Readable.{IsNormalText, push_url-AllReadable}
use oafse.Crawler.Holding.{push_url-Keeps}
use oafse.Crawler.Sound.{IsSound, Holds, Moves, Moves-refl, Moves-trans, Step-Moves}
use oafse.Crawler.Gains.{GainsNone, push_url-GainsNone}
use oafse.Crawler.Only.{repo_push_urls-GainsNone}
use oafse.Crawler.Take.{repo_take_on-Ends}
use oafse.Crawler.Settle.{repo_mark_processed-Ends, repo_retry_url-Ends}
use oafse.Crawler.Push.{AllNormal, repo_push_urls-Ends}
use oafse.Redis.Processing.{recover_url}
use oafse.Crawler.Recovered.{recover_url-Moves, recover_url-GainsNone}
use oafse.Crawler.Spares.{
  repo_take_on-GainsNone, repo_mark_processed-GainsNone, repo_retry_url-GainsNone,
}

-- One call of the URL repository by the worker `id`, as `Execute` makes it: it settles a URL that
-- the worker holds, and pushes links whose texts print back while it holds one.
pub data Turn (net : NetUrl) (r : Redis) (id : String) : r.Store → r.Store → Type 0 where
  takes :
      {s : r.Store} (enqueue_link link : Link) (now later : ℕ)
      → Turn net r id s (repo_take_on net r enqueue_link link id now later s).1
  pushes :
      {s : r.Store} (pipe : Pipe) (urls : List Url) (held : String)
      → Holds net r id held s
      → AllNormal net urls
      → Turn net r id s (repo_push_urls net r pipe urls s).1
  marks :
      {s : r.Store} (link : Link) (url : String) (status : CrawlStatus)
      → link ≢ reply_lost
      → Holds net r id url s
      → IsTerminal status
      → Turn net r id s (repo_mark_processed net r link url status s).1
  retries :
      {s : r.Store} (link : Link) (url : String) (at : ℤ)
      → link ≢ reply_lost
      → Holds net r id url s
      → Turn net r id s (repo_retry_url net r link url at s).1

-- Turns of the workers of `Others`, one after the other, pushes of the control API, of start URLs
-- whose text prints back, and recoveries by the health check of what those workers hold.
pub data Turns (net : NetUrl) (r : Redis) (Others : String → Type 0) (s : r.Store)
    : r.Store → Type 0 where
  nothing : Turns net r Others s s
  turn :
      {t u : r.Store} (id : String)
      → Turns net r Others s t
      → Others id
      → Turn net r id t u
      → Turns net r Others s u
  seeds :
      {t : r.Store} (link : Link) (text : String)
      → Turns net r Others s t
      → IsNormalText net text
      → Turns net r Others s (start r link text t).1
  recovers :
      {t : r.Store} (link : Link) (owner url : String)
      → Turns net r Others s t
      → Others owner
      → Holds net r owner url t
      → Turns net r Others s (recover_url r link url t).1

pub Turns-append :
    (net : NetUrl) (r : Redis) (Others : String → Type 0) (s t : r.Store) {u : r.Store}
    → Turns net r Others s t
    → Turns net r Others t u
    → Turns net r Others s u
Turns-append net r Others s t path nothing = path
Turns-append net r Others s t path (turn id more who step) =
    turn id (Turns-append net r Others s t path more) who step
Turns-append net r Others s t path (seeds link text more normal) =
    seeds link text (Turns-append net r Others s t path more) normal
Turns-append net r Others s t path (recovers link owner url more who held) =
    recovers link owner url (Turns-append net r Others s t path more) who held

pub Turns-map :
    (net : NetUrl) (r : Redis) (Some All : String → Type 0) (s : r.Store) {t : r.Store}
    → ((id : String) → Some id → All id)
    → Turns net r Some s t
    → Turns net r All s t
Turns-map net r Some All s widen nothing = nothing
Turns-map net r Some All s widen (turn id path who step) =
    turn id (Turns-map net r Some All s widen path) (widen id who) step
Turns-map net r Some All s widen (seeds link text path normal) =
    seeds link text (Turns-map net r Some All s widen path) normal
Turns-map net r Some All s widen (recovers link owner url path who held) =
    recovers link owner url (Turns-map net r Some All s widen path) (widen owner who) held

-- The state behind a call that does not panic.
Ends-state :
    {S A : Type 0} (M E : S → Type 0) (P : A → S → Type 0) (x : GoResult A × S)
    → Ends E P x
    → ((s : S) → E s → M s)
    → ((a : A) (s : S) → P a s → M s)
    → M x.1
Ends-state M E P (ok a, s) h e p = p a s h
Ends-state M E P (err f, s) h e p = e s h
Ends-state M E P (panic, s) h e p = absurd h

module _ (net : NetUrl) (r : Redis) (other : String) where
  open r use {Store}

  Turn-Moves :
      (id : String) {s t : Store}
      → id ≢ other
      → IsSound net r s
      → Turn net r id s t
      → Moves net r other s t
  Turn-Moves id {s} distinct sound (takes a b now later) =
      Ends-state (Moves net r other s) _ _ (repo_take_on net r a b id now later s)
        (repo_take_on-Ends net r other id a b now later s sound) (λ t m. m) (λ u t m. m.0)
  Turn-Moves id {s} distinct sound (pushes pipe urls url held normal) =
      Ends-state (Moves net r other s) _ _ (repo_push_urls net r pipe urls s)
        (repo_push_urls-Ends net r other id url pipe urls s sound held normal) (λ t m. m.0)
        (λ u t m. m.0)
  Turn-Moves id {s} distinct sound (marks link url status kept held fin) =
      Ends-state (Moves net r other s) _ _ (repo_mark_processed net r link url status s)
        (repo_mark_processed-Ends net r other id url link s status kept distinct sound held fin)
        (λ t m. m.0) (λ u t m. m)
  Turn-Moves id {s} distinct sound (retries link url at kept held) =
      Ends-state (Moves net r other s) _ _ (repo_retry_url net r link url at s)
        (repo_retry_url-Ends net r other id url link s at kept distinct sound held) (λ t m. m.0)
        (λ u t m. m)

  Turn-GainsNone :
      (id : String) {s t : Store} → id ≢ other → Turn net r id s t → GainsNone net r other s t
  Turn-GainsNone id {s} distinct (takes a b now later) =
      repo_take_on-GainsNone net r other id a b now later s distinct
  Turn-GainsNone id {s} distinct (pushes pipe urls url held normal) =
      repo_push_urls-GainsNone net r other pipe urls s
  Turn-GainsNone id {s} distinct (marks link url status kept held fin) =
      repo_mark_processed-GainsNone net r other link url status s fin
  Turn-GainsNone id {s} distinct (retries link url at kept held) =
      repo_retry_url-GainsNone net r other link url at s

  -- Another worker keeps what it holds, and gets nothing.
  abbrev pub Spared : Store → Store → Type 0
  Spared s t = Moves net r other s t × GainsNone net r other s t

  push_url-Spared :
      (text : String) (s : Store)
      → IsSound net r s
      → IsNormalText net text
      → Spared s (push_url r text "" s).1
  push_url-Spared text s sound normal = (
    Step-Moves net r other s (push_url r text "" s).1 sound (Reach.pushes text "")
        (push_url-Keeps net r other s text "")
        (push_url-AllReadable net r s sound.1 text "" normal),
    push_url-GainsNone net r other s text "",
  )

  start-Spared :
      (link : Link) (text : String) (s : Store)
      → IsSound net r s
      → IsNormalText net text
      → Spared s (start r link text s).1
  unfolding start push_one
  start-Spared up text s sound normal = push_url-Spared text s sound normal
  start-Spared request_lost text s sound normal = (Moves-refl net r other s sound, λ v h. h)
  start-Spared reply_lost text s sound normal = push_url-Spared text s sound normal

  Spared-trans : (s t u : Store) → Spared s t → Spared t u → Spared s u
  Spared-trans s t u (m, g) (m', g') =
      (Moves-trans net r other s t u m m', λ v held. g v (g' v held))

  -- The others' turns, the control API and the health check lead from a sound store by legal steps to a sound store, in
  -- which a worker that is not of them holds just what it held.
  pub Turns-Spared :
      (Others : String → Type 0) {s t : Store}
      → ((id : String) → Others id → id ≢ other)
      → IsSound net r s
      → Turns net r Others s t
      → Spared s t
  Turns-Spared Others {s} apart sound nothing = (Moves-refl net r other s sound, λ v held. held)
  Turns-Spared Others {s} apart sound (turn {t} {u} id path who step) =
      let before = Turns-Spared Others apart sound path in
      let distinct = apart id who in
      Spared-trans s t u before
        (Turn-Moves id distinct before.0.1.1 step, Turn-GainsNone id distinct step)
  Turns-Spared Others {s} apart sound (seeds {t} link text path normal) =
      let before = Turns-Spared Others apart sound path in
      Spared-trans s t (start r link text t).1 before (start-Spared link text t before.0.1.1 normal)
  Turns-Spared Others {s} apart sound (recovers {t} link owner url path who held) =
      let before = Turns-Spared Others apart sound path in
      Spared-trans s t (recover_url r link url t).1 before (
        recover_url-Moves net r owner url t held link other (apart owner who) before.0.1.1,
        recover_url-GainsNone net r owner url t held link other,
      )
