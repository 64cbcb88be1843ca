-- ===== src/Redis/Processing.antt =====
-- processing.go: the URLs that workers hold, and the health check that takes stale ones back.
pub mod Recover
pub mod Health
pub mod Ages
pub mod Undisturbed
pub mod Sweep
pub mod Finish
pub mod Late
pub mod Lost
use oafse.Common.{ℕ, ◌+◌, String, Bool, Option, none, some, List, [], ◌∷◌, if◌then◌else◌, leb}
use oafse.Common.Int.{ℤ, pos, negsuc, unix_milli}
use oafse.Storage.Model.{CrawlStatus}
use oafse.Redis.Info.{UrlInfo, worker}
use oafse.Redis.Api.{Redis}
use oafse.Redis.Scripts.{Done, done, url_not_found, hget, retry_url, mark_processed, recover}
use oafse.Redis.Net.{GoResult, ok, err, Error, Link, call, and_then, transport}

abbrev pub answered : Done → GoResult (Unit {0})
answered done = ok tt
answered (url_not_found url) = err Error.script

-- LINDEX key 0; "" stands for a missing element.
abbrev pub head_or_empty : List String → String
head_or_empty [] = ""
head_or_empty (x ∷ xs) = x

-- `now - info.TakeOnAt >= threshold`, in milliseconds.
abbrev pub is_stale : ℕ → ℕ → ℤ → Bool
is_stale now threshold (pos taken) = leb (taken + threshold) now
is_stale now threshold (negsuc before) = leb threshold (now + 1 + before)

-- What the environment decides about one URL of an SSCAN batch: the URL, the clock when its age is
-- tested, and the fate of the two requests.
pub record Visit : Type 0 where
  pub url : String
  pub now : ℕ
  pub hget_link : Link
  pub recover_link : Link

-- One reply to SSCAN: an error, or a batch of URLs. The loop ends with the reply whose cursor is 0, the last of a list.
pub data Scan : Type 0 where
  scan_failed : Scan
  batch : List Visit → Scan

module _ (r : Redis) where
  open r use {Store, contents}

  unfoldable pub get_url : Link → String → Store → GoResult String × Store
  get_url link worker_id s =
      call link (λ s'. (head_or_empty ((contents s').lists (worker worker_id)), s')) s

  unfoldable pub processing_retry_url : Link → String → ℤ → Store → GoResult (Unit {0}) × Store
  processing_retry_url link url next_retry_time s =
      and_then (call link (retry_url r url (unix_milli next_retry_time)) s) λ d s'. (answered d, s')

  unfoldable pub processing_mark_processed :
      Link → String → CrawlStatus → Store → GoResult (Unit {0}) × Store
  processing_mark_processed link url status s =
      and_then (call link (mark_processed r url status) s) λ d s'. (answered d, s')

  unfoldable pub recover_url : Link → String → Store → GoResult (Unit {0}) × Store
  recover_url link url s = call link (λ s'. (tt, recover r url s')) s

  -- The body of the inner loop, once HGET has answered.
  abbrev pub check_found : ℕ → Visit → Option UrlInfo → Store → GoResult (Unit {0}) × Store
  check_found threshold v none s = recover_url v.recover_link v.url s
  check_found threshold v (some info) s =
      if is_stale v.now threshold info.take_on_at
      then recover_url v.recover_link v.url s
      else (ok tt, s)

  unfoldable pub check_url : ℕ → Visit → Store → GoResult (Unit {0}) × Store
  unfolding recover_url
  check_url threshold v s =
      and_then (call v.hget_link (λ s'. (hget r v.url s', s')) s)
        λ o s'. check_found threshold v o s'

  unfoldable pub check_batch : ℕ → List Visit → Store → GoResult (Unit {0}) × Store
  check_batch threshold [] s = (ok tt, s)
  check_batch threshold (v ∷ vs) s =
      and_then (check_url threshold v s) λ _ s'. check_batch threshold vs s'

  -- The outer loop, over the replies until the cursor is 0.
  unfoldable pub health_check : ℕ → List Scan → Store → GoResult (Unit {0}) × Store
  health_check threshold [] s = (ok tt, s)
  health_check threshold (scan_failed ∷ scans) s = (err transport, s)
  health_check threshold (batch vs ∷ scans) s =
      and_then (check_batch threshold vs s) λ _ s'. health_check threshold scans s'
